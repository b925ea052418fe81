-- ===== src/Store/Audit/Examples.antt =====
-- Runs of the audit log.
use fleetsweeper.Common.{ℕ, ◌≡◌, refl, List, [], ◌∷◌, String}
use fleetsweeper.Common.Integers.{pos}
use fleetsweeper.Store.Time.{Time}
use fleetsweeper.Store.Sql.{ok, err, err_store}
use fleetsweeper.Store.Audit.{
  AuditEntry, AuditTable, AuditListOptions, save_audit_entry, prune_audit_entries,
  list_audit_entries, audit_row,
}
use fleetsweeper.Store.Audit.Listed.{Listed, list_audit_entries-Listed}

abbrev entry : String → Time → ℕ → AuditEntry
entry id at status = record {
  id = id;
  timestamp = at;
  actor_id = "key-1";
  actor_name = "deploy";
  actor_role = "operator";
  method = "POST";
  path = "/scan";
  status = status;
  remote_addr = "10.0.0.1";
  user_agent = "";
  duration_ms = 12;
  error = "";
}

abbrev log : AuditTable
log = audit_row (entry "a" 5 200) ∷ audit_row (entry "b" 9 403) ∷ audit_row (entry "c" 7 500) ∷ []

abbrev failures : AuditListOptions
failures = record { limit = pos 0; since = 4; actor_id = "key-1"; min_status = pos 400 }

lists_failures :
    (list_audit_entries failures (record { table = log; faults = [] })).0
    ≡ ok (entry "b" 9 403 ∷ entry "c" 7 500 ∷ [])
unfolding list_audit_entries audit_row fleetsweeper.Store.Listing.newest
lists_failures = refl

refuses_taken_id :
    (save_audit_entry "g" 11 (entry "a" 0 200) (record { table = log; faults = [] })).0
    ≡ err err_store
unfolding save_audit_entry audit_row
refuses_taken_id = refl

prunes_older : (prune_audit_entries 7 (record { table = log; faults = [] })).0 ≡ ok 1
unfolding prune_audit_entries audit_row
prunes_older = refl

list_audit_entries-Listed_example :
    (es : List AuditEntry) × (list_audit_entries failures (record { table = log; faults = [] })
      ≡ (ok es, record { table = log; faults = [] }))
    × Listed failures log es
list_audit_entries-Listed_example = list_audit_entries-Listed failures log
