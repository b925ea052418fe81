-- ===== src/Server/Auth/Anonymous.antt =====
-- Anonymous reads, and when they end: `holdsCredential` of internal/server/auth.go.
use fleetsweeper.Common.{
  ℕ, ◌+◌, ◌≤◌, ◌≡◌, ◌≢◌, ◌⊎◌, refl, Bool, true, false, List, [], ◌∷◌, none, some, String,
  if◌then◌else◌, ◌||◌, string_eq, list_eq, nat_eq, arith, list_beq_iff,
}
use fleetsweeper.Store.Time.{Time}
use fleetsweeper.Store.Sql.{Result, ok, err}
use fleetsweeper.Store.ApiKeys.{
  ApiKeyRecord, KeyRow, finish_api_key, insert_newest, newest_first, list_api_keys,
}
use fleetsweeper.Server.Auth.{
  Request, Server, World, mutates, note_keys, holds_credential, key_recheck_interval,
  anonymous_actor, resolve_actor, resolve_bare, actor_from_session_cookie, actor, refused,
  missing_credential, path_is_admin, path_is_webhook,
}
use fleetsweeper.Server.Auth.Bearer.{Text, extract_bearer}
use fleetsweeper.Server.Auth.Gate.{Outcome, served, denied, check, auth_middleware}

insert_newest-ne-nil : (r : ApiKeyRecord) (l : List ApiKeyRecord) → insert_newest r l ≢ []
unfolding insert_newest
insert_newest-ne-nil r [] h = cc
insert_newest-ne-nil r (s ∷ rest) h = ground arith

newest_first-ne-nil : (x : String × KeyRow) (t : List (String × KeyRow)) → newest_first (x ∷ t) ≢ []
unfolding newest_first
newest_first-ne-nil (id, row) t h = insert_newest-ne-nil (finish_api_key id row) (newest_first t) h

-- A key is in the table, and the server has seen one or its last look is ten seconds old.
pub record KeyDue (now : Time) (w : World) : Type 0 where
  pub entry : String × KeyRow
  pub rest : List (String × KeyRow)
  pub stored : w.keys.table ≡ entry ∷ rest
  pub due : (w.server.keys_seen ≡ true) ⊎ (w.server.key_checked_at + key_recheck_interval ≤ now)

-- What a server is configured with, or has seen, is a credential.
pub holds_credential-configured :
    (now : Time) (w : World)
    → (w.server.auth_token ≢ []) ⊎ (w.server.oidc ≡ true) ⊎ (w.server.keys_seen ≡ true)
    → (holds_credential now w).0 ≡ true
unfolding holds_credential
holds_credential-configured now w h = ground (arith, list_beq_iff w.server.auth_token [])

note_keys-held :
    (now : Time) (found : Result (List ApiKeyRecord)) (s : Server)
    → found ≢ ok []
    → (note_keys now found s).0 ≡ true
unfolding note_keys
note_keys-held now (err e) s h = refl
note_keys-held now (ok []) s h = absurd (h refl)
note_keys-held now (ok (k ∷ ks)) s h = refl

list_api_keys-ne : (now : Time) (w : World) → KeyDue now w → (list_api_keys w.keys).0 ≢ ok []
unfolding list_api_keys
list_api_keys-ne now w d h = ground (arith, d.stored, newest_first-ne-nil d.entry d.rest)

holds_credential-KeyDue :
    (now : Time) (w : World) → KeyDue now w → (holds_credential now w).0 ≡ true
unfolding holds_credential
holds_credential-KeyDue now w d =
    ground (arith, note_keys-held now (list_api_keys w.keys).0 w.server (list_api_keys-ne now w d))

-- A request that brings no credential and does not go to a webhook.
pub record IsBare (r : Request) (w : World) : Type 0 where
  pub secure : w.server.insecure ≡ false
  pub no_token : extract_bearer r.authorization ≡ []
  pub no_session : r.session ≡ none
  pub plain : path_is_webhook r.path ≡ false

-- What such a request gets: it is refused if the server holds a credential, and otherwise an anonymous
-- viewer's, who reads outside /admin/.
abbrev pub bare_outcome : Request → Bool → Outcome
bare_outcome r held =
    if held || mutates r
    then denied 401
    else if path_is_admin r.path
    then denied 403
    else served (some anonymous_actor)

module _ (hash_token : Text → String) (now : Time) (r : Request) (w : World)
    (bare : IsBare r w) where
  resolve_actor-bare :
      (resolve_actor hash_token now r w).0
      ≡ (if (holds_credential now w).0 then refused missing_credential else actor anonymous_actor)
  unfolding resolve_actor resolve_bare actor_from_session_cookie
  resolve_actor-bare =
      simp (bare.secure, bare.no_token, bare.no_session, (list_beq_iff {A = ℕ} [] []).1 refl)

  -- A request with no credential is served exactly when the server holds none itself and the request
  -- only reads, outside /admin/.
  pub auth_middleware-bare :
      (auth_middleware hash_token now r w).0 ≡ bare_outcome r (holds_credential now w).0
  unfolding auth_middleware check
  auth_middleware-bare = ground (arith, bare.plain, resolve_actor-bare)

  -- On a server that does not run insecure, once a key is stored, and the server has seen one or its last
  -- look is ten seconds old, a request to a path that is not a webhook's, with neither a token nor a
  -- session, is answered 401.
  pub anonymous_ends : KeyDue now w → (auth_middleware hash_token now r w).0 ≡ denied 401
  anonymous_ends d = rw (auth_middleware-bare, holds_credential-KeyDue now w d)
