-- ===== src/Server/AdminKeys/Examples.antt =====
-- Runs of the key handlers.
use fleetsweeper.Common.{
  list_beq, ℕ, ◌≡◌, refl, [], ◌∷◌, none, some, String, inr, false, list_eq, nat_eq, ◌==◌,
  if◌then◌else◌, arith, string_eq, ◌||◌,
}
use fleetsweeper.Common.Integers.{pos}
use fleetsweeper.Store.Sql.{Conn}
use fleetsweeper.Store.Time.{truncated}
use fleetsweeper.Store.ApiKeys.{KeyTable}
use fleetsweeper.Server.Auth.Actors.{allows_cluster}
use fleetsweeper.Server.Auth.{Request, World, get, actor, resolve_actor}
use fleetsweeper.Server.Auth.Bearer.{Text, extract_bearer}
use fleetsweeper.Server.AdminKeys.{
  CreateApiKeyRequest, lasting, decoded, KeyReply, status, key_record, normalize_scope,
  handle_admin_create_key, handle_admin_revoke_key, expiry,
}
use fleetsweeper.Server.AdminKeys.Minted.{minted_actor, created_key-resolves}
use fleetsweeper.Server.AdminKeys.Scope.{all_blank, allows_cluster-normalize_scope}

abbrev fs_token : Text
fs_token = b'f' ∷ b's' ∷ []

abbrev bearer_fs : Text
bearer_fs = b'B' ∷ b'e' ∷ b'a' ∷ b'r' ∷ b'e' ∷ b'r' ∷ b' ' ∷ b'f' ∷ b's' ∷ []

abbrev hash_text : Text → String
hash_text t = if t == fs_token then "h7" else "h0"

abbrev for_east : CreateApiKeyRequest
for_east = record {
  name = "ci";
  role = "operator";
  cluster_scope = "east" ∷ "" ∷ "east" ∷ [];
  ttl = lasting (pos 60_000_000_000);
}

abbrev no_keys : Conn KeyTable
no_keys = record { table = []; faults = [] }

abbrev now : ℕ
now = 5_000_000_000

clean_scope : normalize_scope for_east.cluster_scope ≡ "east" ∷ []
unfolding normalize_scope
clean_scope = refl

abbrev issued : KeyReply × Conn KeyTable
issued =
    handle_admin_create_key hash_text now "admin" "key_7" (decoded for_east) (some fs_token) no_keys

abbrev keyed_world : World
keyed_world = record {
  server = record {
    insecure = false;
    auth_token = [];
    oidc = false;
    keys_seen = false;
    key_checked_at = 0;
    key_touches = [];
  };
  keys = issued.1;
  touches = [];
}

abbrev with_key : Request
with_key = record { method = get; path = "/scans"; authorization = bearer_fs; session = none }

created_key-resolves_example :
    (resolve_actor hash_text 65_000_000_000 with_key keyed_world).0
    ≡ actor (minted_actor "key_7" for_east)
unfolding handle_admin_create_key extract_bearer expiry truncated list_beq
created_key-resolves_example =
    created_key-resolves hash_text now 65_000_000_000 "admin" "key_7" for_east (some fs_token)
      no_keys (key_record now "admin" "key_7" "h7" for_east 65_000_000_000) fs_token with_key
      keyed_world refl refl refl refl refl (λ e. cc) (λ e. cc)
      (λ t e. let runs_out : 65_000_000_000 ≡ t = cc in inr (omega (arith, runs_out)))

allows_cluster-normalize_scope_example :
    allows_cluster
      (record (minted_actor "key_7" for_east) {
        cluster_scope = normalize_scope ("" ∷ "east" ∷ []);
      })
      "east"
      none
    ≡ (all_blank ("" ∷ "east" ∷ [])
        || allows_cluster
            (record (minted_actor "key_7" for_east) { cluster_scope = "" ∷ "east" ∷ [] })
            "east"
            none)
allows_cluster-normalize_scope_example =
    allows_cluster-normalize_scope (minted_actor "key_7" for_east) ("" ∷ "east" ∷ []) "east" none
      (λ e. cc)

revoked_twice :
    (handle_admin_revoke_key 7_000_000_000 "admin" "key_7"
      (handle_admin_revoke_key 6_000_000_000 "admin" "key_7" issued.1).1).0
    ≡ (status 404, none)
unfolding handle_admin_create_key handle_admin_revoke_key list_beq
revoked_twice = refl
