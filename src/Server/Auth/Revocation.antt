-- ===== src/Server/Auth/Revocation.antt =====
-- What a revocation means for the requests that come after it.
use fleetsweeper.Common.{
  ◌<◌, ◌≡◌, ◌≢◌, refl, sym, subst, false, List, [], some, String, string_eq, list_eq, nat_eq, arith,
}
use fleetsweeper.Common.Map.{Unique}
use fleetsweeper.Store.Time.{Time, format}
use fleetsweeper.Store.Sql.{ok, Conn}
use fleetsweeper.Store.ApiKeys.{KeyRow, KeyTable, find_hash, revoke_api_key}
use fleetsweeper.Store.ApiKeys.Revoke.{
  get_api_key_by_hash-Revoked, Revoked, KeyCall, key_run, key_run-Revoked, revoke_api_key-Revoked,
}
use fleetsweeper.Server.Auth.Actors.{Actor}
use fleetsweeper.Server.Auth.{
  Request, World, Resolved, actor, refused, path_is_webhook, resolve_actor,
}
use fleetsweeper.Server.Auth.Bearer.{Text, extract_bearer}
use fleetsweeper.Server.Auth.Gate.{denied, check, auth_middleware}
use fleetsweeper.Server.Auth.Origin.{
  Origin, by_flag, by_bootstrap, by_key, by_session, by_default, resolve_actor-Origin,
}

refused_unless_actor :
    (r : Request) (s : Resolved) → ((a : Actor) → s ≢ actor a) → check r s ≡ denied 401
unfolding check
refused_unless_actor r (refused e) never = refl
refused_unless_actor r (actor a) never = absurd (never a refl)

module _ (hash_token : Text → String) (now : Time) (r : Request) (w : World) where
  middleware_refuses :
      (path_is_webhook r.path ≡ false)
      → ((a : Actor) → (resolve_actor hash_token now r w).0 ≢ actor a)
      → (auth_middleware hash_token now r w).0 ≡ denied 401
  unfolding auth_middleware
  middleware_refuses plain never =
      ground (arith, refused_unless_actor r (resolve_actor hash_token now r w).0 never)

  Revoked-is_nobody :
      w.server.insecure ≡ false
      → extract_bearer r.authorization ≢ []
      → extract_bearer r.authorization ≢ w.server.auth_token
      → Revoked (hash_token (extract_bearer r.authorization)) w.keys
      → (a : Actor) → ¬ Origin hash_token now r w a
  Revoked-is_nobody secure given other gone a (by_flag f e) = cc
  Revoked-is_nobody secure given other gone a (by_bootstrap g b e) = other b
  Revoked-is_nobody secure given other gone a (by_key k g stored live e) =
      get_api_key_by_hash-Revoked _ w.keys k stored gone live.unrevoked
  Revoked-is_nobody secure given other gone a (by_session p n o b l e) = given n
  Revoked-is_nobody secure given other gone a (by_default n h e) = given n

-- Once `RevokeAPIKey` has returned no error for the key of a token, then whatever is written to the key
-- table since, a request with that token is answered 401 and reaches no handler, unless the server runs
-- insecure, the token is the bootstrap token or the path is a webhook's.
pub revocation_is_final :
    (hash_token : Text → String) (revoked_at now : Time) (id : String) (row : KeyRow)
    (c : Conn KeyTable) (later : List KeyCall) (r : Request) (w : World)
    → 0 < format revoked_at
    → Unique c.table
    → find_hash (hash_token (extract_bearer r.authorization)) c.table ≡ some (id, row)
    → (revoke_api_key revoked_at id c).0 ≡ ok tt
    → w.keys ≡ key_run later (revoke_api_key revoked_at id c).1
    → w.server.insecure ≡ false
    → extract_bearer r.authorization ≢ []
    → extract_bearer r.authorization ≢ w.server.auth_token
    → path_is_webhook r.path ≡ false
    → (auth_middleware hash_token now r w).0 ≡ denied 401
revocation_is_final hash_token revoked_at now id row c later r w clock u found done keys secure
      given other plain =
    middleware_refuses hash_token now r w plain λ a h.
      Revoked-is_nobody hash_token now r w secure given other gone a
        (resolve_actor-Origin hash_token now r w a h)
  where
    hash : String
    hash = hash_token (extract_bearer r.authorization)

    gone : Revoked hash w.keys
    gone = subst (Revoked hash) (sym keys) (
        key_run-Revoked hash later (revoke_api_key revoked_at id c).1
          (revoke_api_key-Revoked revoked_at hash id row c clock u found done))
