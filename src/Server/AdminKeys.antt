-- ===== src/Server/AdminKeys.antt =====
-- The handlers of API keys: internal/server/admin_keys_handler.go.
-- A request brings its actor's id and what its body decodes to; the random token, none if the source of
-- randomness failed, and the new key's id are arguments.
pub mod Scope
pub mod Minted
pub mod Examples
use fleetsweeper.Common.{
  ℕ, Bool, not, ◌||◌, List, [], ◌∷◌, Option, none, some, String, if◌then◌else◌, ◌==◌, string_eq,
  contains, map,
}
use fleetsweeper.Common.Integers.{ℤ, pos, positive_part, ◌+ℤ◌}
use fleetsweeper.Store.Time.{Time}
use fleetsweeper.Store.Sql.{Result, ok, err, Conn, err_not_found}
use fleetsweeper.Store.ApiKeys.{
  ApiKeyRecord, KeyTable, scope_or_wildcard, valid_role, save_api_key, list_api_keys,
  revoke_api_key,
}
use fleetsweeper.Server.Auth.Bearer.{Text}

-- `ttl`: left out, no Go duration, or nanoseconds.
pub data Ttl : Type 0 where
  no_ttl unreadable_ttl : Ttl
  lasting : ℤ → Ttl

pub record CreateApiKeyRequest : Type 0 where
  pub name : String
  pub role : String
  pub cluster_scope : List String
  pub ttl : Ttl

-- A body that does not decode has been answered with the status that it carries.
pub data KeyBody : Type 0 where
  undecodable : ℕ → KeyBody
  decoded : CreateApiKeyRequest → KeyBody

pub data KeyReply : Type 0 where
  status : ℕ → KeyReply
  created : ApiKeyRecord → Text → KeyReply
  listing : List ApiKeyRecord → KeyReply

-- The loop of `normalizeScope`, with the entries it has seen.
unfoldable pub first_entries : List String → List String → List String
first_entries seen [] = []
first_entries seen (e ∷ es) =
    let rest = first_entries seen es in
    let onward = first_entries (e ∷ seen) es in
    if e == "" || contains seen e then rest else e ∷ onward

unfoldable pub normalize_scope : List String → List String
unfolding first_entries
normalize_scope entries = scope_or_wildcard (first_entries [] entries)

-- The instant that a key runs out, zero if it never does; none for a duration that cannot be read.
unfoldable pub expiry : Time → Ttl → Option Time
unfolding ◌+ℤ◌
expiry now no_ttl = some 0
expiry now unreadable_ttl = none
expiry now (lasting d) = some (positive_part (pos now +ℤ d))

abbrev pub key_record : Time → String → String → String → CreateApiKeyRequest → Time → ApiKeyRecord
key_record now creator id hash req expires_at = record {
  id = id;
  token_hash = hash;
  name = req.name;
  role = req.role;
  cluster_scope = normalize_scope req.cluster_scope;
  created_at = now;
  expires_at = expires_at;
  last_used_at = 0;
  revoked_at = 0;
  created_by = creator;
}

abbrev pub key_saved :
    ApiKeyRecord → Text → Result (Unit {0}) × Conn KeyTable → KeyReply × Conn KeyTable
key_saved r raw (ok done, c) = (created r raw, c)
key_saved r raw (err e, c) = (status 500, c)

module _ (hash_token : Text → String) (now : Time) (creator : String) (id : String) where
  -- Once the token is generated.
  unfoldable pub mint : CreateApiKeyRequest → Text → Conn KeyTable → KeyReply × Conn KeyTable
  unfolding expiry save_api_key
  mint req raw c = elim (expiry now req.ttl) [
    | none ↦ (status 400, c)
    | some t ↦
        let r = key_record now creator id (hash_token raw) req t in
        key_saved r raw (save_api_key now r c)
  ]

  unfoldable pub create_key :
      CreateApiKeyRequest → Option Text → Conn KeyTable → KeyReply × Conn KeyTable
  unfolding mint valid_role
  create_key req raw c =
      if req.name == ""
      then (status 400, c)
      else if not (valid_role req.role)
      then (status 400, c)
      else elim raw [ none ↦ (status 500, c) | some t ↦ mint req t c ]

  unfoldable pub handle_admin_create_key :
      KeyBody → Option Text → Conn KeyTable → KeyReply × Conn KeyTable
  unfolding create_key
  handle_admin_create_key (undecodable code) raw c = (status code, c)
  handle_admin_create_key (decoded req) raw c = create_key req raw c

abbrev pub without_hash : ApiKeyRecord → ApiKeyRecord
without_hash k = record k { token_hash = "" }

abbrev pub keys_listed : Result (List ApiKeyRecord) × Conn KeyTable → KeyReply × Conn KeyTable
keys_listed (ok keys, c) = (listing (map without_hash keys), c)
keys_listed (err e, c) = (status 500, c)

unfoldable pub handle_admin_list_keys : Conn KeyTable → KeyReply × Conn KeyTable
unfolding list_api_keys
handle_admin_list_keys c = keys_listed (list_api_keys c)

-- The event `key.revoked`.
pub record KeyRevoked : Type 0 where
  pub key_id : String
  pub revoked_by : String

-- The reply to a revocation, with the event that it publishes.
abbrev pub key_revoked :
    KeyRevoked → Result (Unit {0}) × Conn KeyTable → (KeyReply × Option KeyRevoked) × Conn KeyTable
key_revoked event (ok done, c) = ((status 204, some event), c)
key_revoked event (err err_not_found, c) = ((status 404, none), c)
key_revoked event (err e, c) = ((status 500, none), c)

unfoldable pub handle_admin_revoke_key :
    Time → String → String → Conn KeyTable → (KeyReply × Option KeyRevoked) × Conn KeyTable
unfolding revoke_api_key
handle_admin_revoke_key now revoker id c =
    if id == ""
    then ((status 400, none), c)
    else key_revoked (record { key_id = id; revoked_by = revoker }) (revoke_api_key now id c)
