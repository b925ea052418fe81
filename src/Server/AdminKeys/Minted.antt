-- ===== src/Server/AdminKeys/Minted.antt =====
-- What a new key is good for.
use fleetsweeper.Common.{
  ◌≡◌, ◌≢◌, ◌≤◌, ◌⊎◌, refl, false, List, [], Option, none, some, String, arith, Bool-cases, inl,
  inr, Option-cases, eq_iff, sym, subst, ap, ◌∷◌, list_beq_iff, ◌∙◌, ◌==◌, string_eq, list_eq,
  nat_eq,
}
use fleetsweeper.Store.Time.{Time, truncated, is_zero, parse_null-format_null}
use fleetsweeper.Store.Sql.{Result, ok, err, Conn, Healthy, StoreError}
use fleetsweeper.Store.ApiKeys.{
  scope_or_wildcard, ApiKeyRecord, KeyTable, collides, save_api_key, valid_role,
  get_api_key_by_hash, key_row, finish_api_key,
}
use fleetsweeper.Store.ApiKeys.Saved.{IsValid, get_api_key_by_hash-save, save_api_key-collides}
use fleetsweeper.Server.Auth.Actors.{Actor}
use fleetsweeper.Server.Auth.{Request, World, actor, judge_key, key_actor, resolve_actor}
use fleetsweeper.Server.Auth.Bearer.{Text, extract_bearer}
use fleetsweeper.Server.AdminKeys.{
  CreateApiKeyRequest, KeyReply, created, status, listing, decoded, expiry, key_record, key_saved,
  mint, create_key, first_entries, normalize_scope, handle_admin_create_key,
}

-- The actor that requests with the new key's token are made by.
abbrev pub minted_actor : String → CreateApiKeyRequest → Actor
minted_actor id req = record {
  id = id;
  name = req.name;
  role = req.role;
  cluster_scope = normalize_scope req.cluster_scope;
}

err≢ok : {A : Type 0} {e : StoreError} {a : A} → err e ≢ ok a
err≢ok h = cc

module _ (now : Time) (r : ApiKeyRecord) (c : Conn KeyTable) (healthy : Healthy c) where
  -- A save that works was of a valid record whose id and token hash were free.
  saved-IsValid : (save_api_key now r c).0 ≡ ok tt → IsValid r
  unfolding save_api_key
  saved-IsValid h = record {
    named = λ e. ground (arith, e, h, eq_iff r.id "");
    hashed = λ e. ground (arith, e, h, eq_iff r.token_hash "");
    ranked = ground (arith, h);
  }

  saved_free : (save_api_key now r c).0 ≡ ok tt → collides r.id r.token_hash c.table ≡ false
  saved_free h = elim (Bool-cases (collides r.id r.token_hash c.table)) [
    | inl t ↦
        absurd (err≢ok (sym (save_api_key-collides now r c healthy (saved-IsValid h) t).0 ∙ h))
    | inr t ↦ t
  ]

  found_again :
      (save_api_key now r c).0 ≡ ok tt
      → (get_api_key_by_hash r.token_hash (save_api_key now r c).1).0
        ≡ ok (finish_api_key r.id (key_row now r))
  found_again h = get_api_key_by_hash-save now r c healthy (saved-IsValid h) (saved_free h)

judge_fresh :
    (now later : Time) (r : ApiKeyRecord) (w : World)
    → r.revoked_at ≡ 0
    → (r.expires_at ≡ 0) ⊎ (later ≤ truncated r.expires_at)
    → (judge_key later (ok (finish_api_key r.id (key_row now r))) w).0
      ≡ actor (key_actor (finish_api_key r.id (key_row now r)))
unfolding judge_key finish_api_key key_row is_zero truncated
judge_fresh now later r w u (inl e) =
    ground (arith, u, e, parse_null-format_null r.revoked_at, parse_null-format_null r.expires_at)
judge_fresh now later r w u (inr e) =
    ground (arith, u, e, parse_null-format_null r.revoked_at, parse_null-format_null r.expires_at)

module _ (hash_token : Text → String) (now : Time) (creator id : String)
    (req : CreateApiKeyRequest) where
  abbrev record_for : Text → Time → ApiKeyRecord
  record_for token t = key_record now creator id (hash_token token) req t

  -- A reply that brings a key comes of a save that worked.
  record Minted (token : Text) (c after : Conn KeyTable) : Type 0 where
    expires_at : Time
    until : expiry now req.ttl ≡ some expires_at
    saves : (save_api_key now (record_for token expires_at) c).0 ≡ ok tt
    left : after ≡ (save_api_key now (record_for token expires_at) c).1

  -- A reply, with the table after it, to a request at the connection c.
  abbrev Made : Conn KeyTable → KeyReply × Conn KeyTable → Type 0
  Made c (created k token, after) = Minted token c after
  Made c (status n, after) = Unit
  Made c (listing ks, after) = Unit

  key_saved-Made :
      (raw : Text) (c : Conn KeyTable) (t : Time) (p : Result (Unit {0}) × Conn KeyTable)
      → expiry now req.ttl ≡ some t
      → save_api_key now (record_for raw t) c ≡ p
      → Made c (key_saved (record_for raw t) raw p)
  key_saved-Made raw c t (ok done, after) e h = record {
    expires_at = t;
    until = e;
    saves = rw h refl;
    left = rw h refl;
  }
  key_saved-Made raw c t (err x, after) e h = tt

  mint-Made : (raw : Text) (c : Conn KeyTable) → Made c (mint hash_token now creator id req raw c)
  unfolding mint
  mint-Made raw c = elim (Option-cases (expiry now req.ttl)) [
    | inl e ↦ rw (mint, e) tt
    | inr (t, e) ↦ rw (mint, e) (key_saved-Made raw c t _ e refl)
  ]

  minted-Made :
      (raw : Option Text) (c : Conn KeyTable)
      → Made c
          (elim raw [ none ↦ (status 500, c) | some t ↦ mint hash_token now creator id req t c ])
  minted-Made none c = tt
  minted-Made (some t) c = mint-Made t c

  create_key-Made :
      (raw : Option Text) (c : Conn KeyTable)
      → Made c (create_key hash_token now creator id req raw c)
  unfolding create_key
  create_key-Made raw c = elim (Bool-cases (req.name == "")) [
    | inl e ↦ rw (create_key, e) tt
    | inr e ↦ elim (Bool-cases (valid_role req.role)) [
      | inl v ↦ rw (create_key, e, v) (minted-Made raw c)
      | inr v ↦ rw (create_key, e, v) tt
    ]
  ]

  created-Minted :
      (c : Conn KeyTable) (k : ApiKeyRecord) (token : Text) (p : KeyReply × Conn KeyTable)
      → Made c p
      → p.0 ≡ created k token
      → Minted token c p.1
  created-Minted c k token (created j t, after) m h =
      let same : t ≡ token = cc in subst (λ x. Minted x c after) same m
  created-Minted c k token (status n, after) m h = cc
  created-Minted c k token (listing ks, after) m h = cc

scope_or_wildcard_again :
    (es : List String) → scope_or_wildcard (scope_or_wildcard es) ≡ scope_or_wildcard es
scope_or_wildcard_again [] = refl
scope_or_wildcard_again (e ∷ es) = refl

-- A request with the token of no special credential is judged by its key.
resolve_by_key :
    (hash_token : Text → String) (later : Time) (token : Text) (r : Request) (w : World)
    → w.server.insecure ≡ false
    → extract_bearer r.authorization ≡ token
    → token ≢ []
    → token ≢ w.server.auth_token
    → (resolve_actor hash_token later r w).0
      ≡ (judge_key later
          (get_api_key_by_hash (hash_token token) w.keys).0
          (record w { keys = (get_api_key_by_hash (hash_token token) w.keys).1 })).0
unfolding resolve_actor
resolve_by_key hash_token later token r w secure given some_token other = rw given (
    ground (
      arith,
      secure,
      some_token,
      other,
      list_beq_iff token [],
      list_beq_iff token w.server.auth_token,
      list_beq_iff w.server.auth_token [],
    ))

judge_minted :
    (hash_token : Text → String) (now later t : Time) (creator id : String)
    (req : CreateApiKeyRequest) (token : Text) (found : Result ApiKeyRecord) (w : World)
    → found
      ≡ ok (finish_api_key id (key_row now (key_record now creator id (hash_token token) req t)))
    → (t ≡ 0) ⊎ (later ≤ truncated t)
    → (judge_key later found w).0 ≡ actor (minted_actor id req)
unfolding key_row finish_api_key normalize_scope
judge_minted hash_token now later t creator id req token found w e in_time = rw e (
    judge_fresh now later (key_record now creator id (hash_token token) req t) w refl in_time
    ∙ ap (λ s. actor (record { id = id; name = req.name; role = req.role; cluster_scope = s }))
        (scope_or_wildcard_again (first_entries [] req.cluster_scope)))

-- When a request for a key is answered with one, the database failing no statement, then on the table that
-- it leaves a request with the new token resolves to an actor with the key's id, its name and role, and
-- the clean list of the scope that was asked for, up to the key's expiry, if it has one: the end of its
-- duration, cut down to a whole second. The server runs secure, and the token is neither empty nor the
-- bootstrap token.
pub created_key-resolves :
    (hash_token : Text → String) (now later : Time) (creator id : String)
    (req : CreateApiKeyRequest) (raw : Option Text) (c : Conn KeyTable) (k : ApiKeyRecord)
    (token : Text) (r : Request) (w : World)
    → Healthy c
    → (handle_admin_create_key hash_token now creator id (decoded req) raw c).0 ≡ created k token
    → w.keys ≡ (handle_admin_create_key hash_token now creator id (decoded req) raw c).1
    → w.server.insecure ≡ false
    → extract_bearer r.authorization ≡ token
    → token ≢ []
    → token ≢ w.server.auth_token
    → ((t : Time) → expiry now req.ttl ≡ some t → (t ≡ 0) ⊎ (later ≤ truncated t))
    → (resolve_actor hash_token later r w).0 ≡ actor (minted_actor id req)
unfolding handle_admin_create_key
created_key-resolves hash_token now later creator id req raw c k token r w healthy h keys secure
      given some_token other in_time =
    let m =
      created-Minted hash_token now creator id req c k token _
        (create_key-Made hash_token now creator id req raw c) h in
    let rec : ApiKeyRecord = key_record now creator id (hash_token token) req m.expires_at in
    let found : (get_api_key_by_hash (hash_token token) w.keys).0
        ≡ ok (finish_api_key id (key_row now rec)) =
      ap (λ x. (get_api_key_by_hash (hash_token token) x).0) (keys ∙ m.left)
      ∙ found_again now rec c healthy m.saves in
    resolve_by_key hash_token later token r w secure given some_token other
    ∙ judge_minted hash_token now later m.expires_at creator id req token _ _ found
        (in_time m.expires_at m.until)
