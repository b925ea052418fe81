-- ===== src/Server/AckHandlers/Examples.antt =====
-- Runs of the acknowledgement handlers.
use fleetsweeper.Common.{◌≡◌, refl, List, [], ◌∷◌, none, String, string_eq}
use fleetsweeper.Common.Map.{Map, lookup}
use fleetsweeper.Report.{Finding}
use fleetsweeper.Store.Sql.{Result, ok}
use fleetsweeper.Store.Acks.{AckTable, AckRow}
use fleetsweeper.Server.Auth.Actors.{Actor}
use fleetsweeper.Server.AckHandlers.{
  status, Body, decoded, permanent, handle_create_ack, handle_delete_ack,
}
use fleetsweeper.Server.AckHandlers.Scoped.{Covered, OfFinding, handle_create_ack-Covered}
use fleetsweeper.Server.AckHandlers.Deletion.{Spared, handle_delete_ack-Spared}

abbrev operator : Actor
operator = record {
  id = "k1";
  name = "east-ops";
  role = "operator";
  cluster_scope = "east" ∷ "group:lab" ∷ [];
}

abbrev groups : String → List String
groups name = "lab-1" ∷ []

abbrev finding_in : String → Finding
finding_in cluster = record {
  severity = "warning";
  cluster = cluster;
  scanner = "certs";
  rule = "certs/expiry";
  title = "certificate expires";
  marks = [];
}

abbrev latest : Result (Map String Finding)
latest = ok (("f1", finding_in "lab-1") ∷ ("f2", finding_in "west") ∷ [])

abbrev body : Body
body = decoded (record { ack_by = "sam"; reason = "renewing"; snooze_until = permanent })

abbrev row_in : String → AckRow
row_in cluster = record {
  cluster = cluster;
  scanner = "certs";
  title = "certificate expires";
  ack_by = "kim";
  reason = "";
  snooze_until = none;
  created_at = 3;
}

abbrev acks : AckTable
acks = ("f2", row_in "west") ∷ []

refuses_west :
    (handle_create_ack operator groups 7 latest "f2" body (record { table = acks; faults = [] })).0
    ≡ status 403
unfolding handle_create_ack lookup
refuses_west = refl

handle_create_ack-Covered_example :
    Covered operator groups
      (OfFinding operator groups latest "f1")
      acks
      (handle_create_ack operator groups 7 latest "f1" body (record { table = acks; faults = [] }))
handle_create_ack-Covered_example =
    handle_create_ack-Covered operator groups 7 latest "f1" body
      (record { table = acks; faults = [] })

handle_delete_ack-Spared_example :
    Spared operator groups 7 acks
      (handle_delete_ack operator groups 7 "f2" (record { table = acks; faults = [] })).1.table
handle_delete_ack-Spared_example =
    handle_delete_ack-Spared operator groups 7 "f2" (record { table = acks; faults = [] }) (tt, tt)
