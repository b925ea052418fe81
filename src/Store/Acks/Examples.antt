-- ===== src/Store/Acks/Examples.antt =====
-- Runs of the ack store, and its theorems at concrete calls.
use fleetsweeper.Common.{
  ℕ, ◌+◌, true, if◌then◌else◌, false≢true, ◌≡◌, refl, List, [], ◌∷◌, String, arith, eq_iff,
  string_eq,
}
use fleetsweeper.Common.Map.{lookup, insert, keep}
use fleetsweeper.Store.Sql.{ok, err, Conn, err_store, err_not_found}
use fleetsweeper.Store.Acks.{AckRecord, AckTable, save_ack, get_ack, list_acks}
use fleetsweeper.Store.Acks.View.{view}
use fleetsweeper.Store.Acks.History.{saves, step, expected, outcome, unless_failed, step-view}
use fleetsweeper.Store.Acks.Snooze.{stored, runs_out, get_ack-save_ack}
use fleetsweeper.Store.Acks.Listing.{NewestFirst, Once, entry, list_acks-view}

abbrev an_hour_in : ℕ
an_hour_in = 3_600_500_000_000

-- Snoozed until ten seconds after it is saved, with a fraction of a second that is not kept.
abbrev snoozed : AckRecord
snoozed = record {
  fingerprint = "f1";
  cluster = "prod";
  scanner = "certs";
  title = "certificate expires";
  ack_by = "sam";
  reason = "renewal booked";
  snooze_until = 3_610_700_000_000;
  created_at = 0;
}

abbrev empty : Conn AckTable
empty = record { table = []; faults = [] }

-- The next statement fails, the ones after it succeed.
abbrev broken : Conn AckTable
broken = record { table = []; faults = true ∷ [] }

abbrev after_save : Conn AckTable
after_save = (save_ack an_hour_in snoozed empty).1

read_back :
    (get_ack (an_hour_in + 10_000_000_000) "f1" after_save).0 ≡ ok (stored an_hour_in snoozed)
unfolding lookup insert keep save_ack get_ack stored
read_back = refl

read_too_late : (get_ack (an_hour_in + 11_000_000_000) "f1" after_save).0 ≡ err err_not_found
unfolding lookup insert keep save_ack get_ack
read_too_late = refl

save_refused : (save_ack an_hour_in snoozed broken).0 ≡ err err_store
unfolding save_ack
save_refused = refl

step-view_example :
    view an_hour_in (step an_hour_in (saves snoozed) broken).table "f1"
    ≡ unless_failed
        (outcome an_hour_in (saves snoozed) broken)
        (expected an_hour_in an_hour_in (saves snoozed) [] "f1")
        (view an_hour_in [] "f1")
step-view_example = step-view an_hour_in an_hour_in "f1" broken (omega arith) tt (saves snoozed)

get_ack-save_ack_example : (get_ack (an_hour_in + 10_000_000_000) "f1" after_save).0 ≡ (
    if runs_out snoozed (an_hour_in + 10_000_000_000)
    then err err_not_found
    else ok (stored an_hour_in snoozed))
get_ack-save_ack_example =
    get_ack-save_ack an_hour_in (an_hour_in + 10_000_000_000) snoozed empty (omega arith)
      (λ e. false≢true ((eq_iff "f1" "").1 e)) refl tt

list_acks-view_example :
    (l : List AckRecord) × ((list_acks 7 empty).0 ≡ ok l)
    × NewestFirst l
    × Once l
    × ((k : String) → entry k l ≡ view 7 [] k)
list_acks-view_example = list_acks-view 7 empty refl tt
