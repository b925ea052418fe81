-- ===== src/Store/Acks/Snooze.antt =====
-- How long an ack holds: from `SaveAck` to the end of its snooze.
use fleetsweeper.Common.{
  ◌≤◌, ◌≡◌, ◌≢◌, refl, ◌∙◌, ap, Bool, true, false, none, some, if◌then◌else◌, arith, eq_iff,
  string_eq, ltb, not, ◌&&◌,
}
use fleetsweeper.Common.Map.{Unique, lookup-insert}
use fleetsweeper.Store.Time.{Time, format, truncated, is_zero}
use fleetsweeper.Store.Sql.{ok, err, Conn, Healthy, err_not_found}
use fleetsweeper.Store.Acks.{
  AckRecord, AckTable, ack_row, scan_ack_row, with_created_at, is_live, save_ack, get_ack,
}
use fleetsweeper.Store.Acks.View.{visible, view, found, get_ack-view}
use fleetsweeper.Store.Acks.History.{saves, step, step-Unique}

-- What is read back of a record: its times in whole seconds, and a creation time if it had none.
unfoldable pub stored : Time → AckRecord → AckRecord
unfolding truncated with_created_at
stored now r = record r {
  snooze_until = truncated r.snooze_until;
  created_at = truncated (with_created_at now r).created_at;
}

-- An ack with no snooze never runs out; another runs out when the clock's second passes its own.
unfoldable pub runs_out : AckRecord → Time → Bool
unfolding is_zero format
runs_out r later = not (is_zero r.snooze_until) && ltb (format r.snooze_until) (format later)

visible-ack_row :
    (now later : Time) (r : AckRecord)
    → visible later r.fingerprint (some (ack_row (with_created_at now r)))
      ≡ (if runs_out r later then none else some (stored now r))
unfolding visible runs_out stored with_created_at ack_row scan_ack_row is_live
visible-ack_row now later r = ground arith

module _ (now : Time) (r : AckRecord) (c : Conn AckTable) (named : r.fingerprint ≢ "")
    (healthy : Healthy c) where
  save_ack-Healthy : Healthy (save_ack now r c).1
  unfolding save_ack
  save_ack-Healthy = ground arith

  view-save_ack :
      (later : Time)
      → view later (save_ack now r c).1.table r.fingerprint
        ≡ visible later r.fingerprint (some (ack_row (with_created_at now r)))
  unfolding save_ack view
  view-save_ack later = ground (
    arith,
    eq_iff r.fingerprint "",
    eq_iff r.fingerprint r.fingerprint,
    lookup-insert r.fingerprint r.fingerprint (ack_row (with_created_at now r)) c.table,
  )

found-if :
    (b : Bool) (r : AckRecord)
    → found (if b then none else some r) ≡ (if b then err err_not_found else ok r)
found-if true r = refl
found-if false r = refl

-- An ack that was saved is what `GetAck` returns, with its times cut to seconds, until its snooze has
-- run out, and `ErrNotFound` from then on.
pub get_ack-save_ack :
    (now later : Time) (r : AckRecord) (c : Conn AckTable)
    → now ≤ later
    → r.fingerprint ≢ ""
    → Healthy c
    → Unique c.table
    → (get_ack later r.fingerprint (save_ack now r c).1).0
      ≡ (if runs_out r later then err err_not_found else ok (stored now r))
unfolding step
get_ack-save_ack now later r c h named healthy u =
    get_ack-view later r.fingerprint (save_ack now r c).1 (save_ack-Healthy now r c named healthy)
      (step-Unique now (saves r) c u)
    ∙ ap found (view-save_ack now r c named healthy later ∙ visible-ack_row now later r)
    ∙ found-if (runs_out r later) (stored now r)
