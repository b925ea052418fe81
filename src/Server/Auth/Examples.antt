-- ===== src/Server/Auth/Examples.antt =====
-- Requests to a server with one key, and the theorems at them.
use fleetsweeper.Common.{
  AnyOf, ◌≡◌, ◌↔◌, refl, inr, true, false, if◌then◌else◌, List, [], ◌∷◌, none, some, String, arith,
  string_eq, list_eq, nat_eq, ◌==◌, list_beq,
}
use fleetsweeper.Store.Time.{format}
use fleetsweeper.Store.Sql.{Conn}
use fleetsweeper.Store.ApiKeys.{KeyRow, KeyTable, find_hash, get_api_key_by_hash, revoke_api_key}
use fleetsweeper.Store.ApiKeys.Revoke.{touches, key_run}
use fleetsweeper.Server.Auth.Actors.{Actor, allows_cluster, filter_clusters}
use fleetsweeper.Server.Auth.{
  Request, Server, World, get, post, actor, path_is_admin, path_is_webhook, resolve_actor,
  judge_key, mutates,
}
use fleetsweeper.Server.Auth.Bearer.{Text, extract_bearer}
use fleetsweeper.Server.Auth.Scope.{Grants, allows_cluster-Grants}
use fleetsweeper.Server.Auth.Gate.{
  served, denied, check, MayPass, auth_middleware, auth_middleware-MayPass,
}
use fleetsweeper.Server.Auth.Origin.{Origin, resolve_actor-Origin}
use fleetsweeper.Server.Auth.Revocation.{revocation_is_final}
use fleetsweeper.Server.Auth.Anonymous.{IsBare, anonymous_ends}

abbrev bearer_k : Text
bearer_k = b'B' ∷ b'e' ∷ b'a' ∷ b'r' ∷ b'e' ∷ b'r' ∷ b' ' ∷ b' ' ∷ b'k' ∷ []

abbrev k_token : Text
k_token = b'k' ∷ []

-- Tells the token above from all others.
abbrev toy_hash : Text → String
toy_hash t = if t == k_token then "h1" else "h0"

abbrev operator_row : KeyRow
operator_row = record {
  token_hash = "h1";
  name = "ci-runner";
  role = "operator";
  cluster_scope = "group:staging" ∷ [];
  created_at = 5;
  expires_at = none;
  last_used_at = none;
  revoked_at = none;
  created_by = "cli";
}

abbrev key_table : Conn KeyTable
key_table = record { table = ("key_1", operator_row) ∷ []; faults = [] }

abbrev server : Server
server = record {
  insecure = false;
  auth_token = [];
  oidc = false;
  keys_seen = false;
  key_checked_at = 0;
  key_touches = [];
}

abbrev world : World
world = record { server = server; keys = key_table; touches = [] }

abbrev trigger : Request
trigger = record { method = post; path = "/scans"; authorization = bearer_k; session = none }

abbrev read : Request
read = record { method = get; path = "/scans"; authorization = []; session = none }

abbrev ci_actor : Actor
ci_actor = record {
  id = "key_1";
  name = "ci-runner";
  role = "operator";
  cluster_scope = "group:staging" ∷ [];
}

token_read : extract_bearer bearer_k ≡ k_token
unfolding extract_bearer
token_read = refl

operator_passes : (auth_middleware toy_hash 60_000_000_000 trigger world).0 ≡ served (some ci_actor)
unfolding auth_middleware check mutates path_is_admin path_is_webhook resolve_actor extract_bearer
    judge_key get_api_key_by_hash list_beq
operator_passes = refl

auth_middleware-MayPass_example :
    MayPass trigger ci_actor
    × ((resolve_actor toy_hash 60_000_000_000 trigger world).0 ≡ actor ci_actor)
auth_middleware-MayPass_example =
    auth_middleware-MayPass toy_hash 60_000_000_000 trigger world ci_actor operator_passes

resolve_actor-Origin_example : Origin toy_hash 60_000_000_000 trigger world ci_actor
resolve_actor-Origin_example =
    resolve_actor-Origin toy_hash 60_000_000_000 trigger world ci_actor
      (auth_middleware-MayPass toy_hash 60_000_000_000 trigger world ci_actor operator_passes).1

abbrev revoked_world : World
revoked_world = record world {
  keys =
      key_run (touches "key_1" 61_000_000_000 ∷ [])
        (revoke_api_key 60_000_000_000 "key_1" key_table).1;
}

revocation_is_final_example :
    (auth_middleware toy_hash 90_000_000_000 trigger revoked_world).0 ≡ denied 401
unfolding extract_bearer find_hash revoke_api_key path_is_webhook format list_beq
revocation_is_final_example =
    revocation_is_final toy_hash 60_000_000_000 90_000_000_000 "key_1" operator_row key_table
      (touches "key_1" 61_000_000_000 ∷ []) trigger revoked_world (omega arith) (tt, tt) refl refl
      refl refl (λ e. cc) (λ e. cc) refl

read-IsBare : IsBare read world
unfolding extract_bearer path_is_webhook
read-IsBare = record { secure = refl; no_token = refl; no_session = refl; plain = refl }

anonymous_ends_example : (auth_middleware toy_hash 60_000_000_000 read world).0 ≡ denied 401
anonymous_ends_example =
    anonymous_ends toy_hash 60_000_000_000 read world read-IsBare (record {
      entry = ("key_1", operator_row);
      rest = [];
      stored = refl;
      due = inr (omega arith);
    })

abbrev staging : String → List String
staging name = if name == "staging" then "c1" ∷ "c2" ∷ [] else []

allows_cluster-Grants_example :
    (allows_cluster ci_actor "c2" (some staging) ≡ true)
    ↔ AnyOf (Grants "c2" (some staging)) ("group:staging" ∷ [])
allows_cluster-Grants_example = allows_cluster-Grants ci_actor "c2" (some staging)

only_staging : filter_clusters ci_actor ("c0" ∷ "c1" ∷ []) (some staging) ≡ "c1" ∷ []
unfolding filter_clusters
only_staging = refl
