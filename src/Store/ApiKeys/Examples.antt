-- ===== src/Store/ApiKeys/Examples.antt =====
-- Runs of the key store, and its theorems at concrete calls.
use fleetsweeper.Common.{◌≡◌, refl, [], ◌∷◌, string_eq, eq_iff, false≢true}
use fleetsweeper.Store.Sql.{ok, err, Conn, Healthy, err_duplicate}
use fleetsweeper.Store.ApiKeys.{ApiKeyRecord, KeyTable, save_api_key, revoke_api_key, valid_role}
use fleetsweeper.Store.ApiKeys.Saved.{IsValid}

abbrev ci_runner : ApiKeyRecord
ci_runner = record {
  id = "key_1";
  token_hash = "h1";
  name = "ci-runner";
  role = "operator";
  cluster_scope = "group:staging" ∷ [];
  created_at = 0;
  expires_at = 0;
  last_used_at = 0;
  revoked_at = 0;
  created_by = "cli";
}

abbrev stored : Conn KeyTable
stored = (save_api_key 5_000_000_000 ci_runner (record { table = []; faults = [] })).1

abbrev revoked : Conn KeyTable
revoked = (revoke_api_key 9_000_000_000 "key_1" stored).1

-- The same id again, under another hash.
same_id :
    (save_api_key 6_000_000_000 (record ci_runner { token_hash = "h2" }) stored).0
    ≡ err err_duplicate
unfolding save_api_key
same_id = refl

revoked_now : (revoke_api_key 9_000_000_000 "key_1" stored).0 ≡ ok tt
unfolding save_api_key revoke_api_key
revoked_now = refl

abbrev none_stored : Conn KeyTable
none_stored = record { table = []; faults = [] }

ci_runner-IsValid : IsValid ci_runner
unfolding valid_role
ci_runner-IsValid = record {
  named = λ e. false≢true ((eq_iff "key_1" "").1 e);
  hashed = λ e. false≢true ((eq_iff "h1" "").1 e);
  ranked = refl;
}

stored-Healthy : Healthy stored
unfolding save_api_key
stored-Healthy = refl
