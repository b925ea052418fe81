-- ===== src/Store/Alerts/Upserts.antt =====
-- An alert is read back as it was last received.
use fleetsweeper.Common.{
  ◌≡◌, false, [], Option, none, some, String, if◌then◌else◌, ◌==◌, string_eq, arith, eq_iff, refl,
  ◌≢◌, Option-cases, Bool-cases, inl, inr, ◌∙◌, subst, ap,
}
use fleetsweeper.Common.Map.{lookup, insert, lookup-insert}
use fleetsweeper.Store.Time.{Time, is_zero}
use fleetsweeper.Store.Sql.{Result, ok, err, Conn, statement, query, exec, ◌>>=◌, err_not_found}
use fleetsweeper.Store.Audit.Listed.{null_text-nullable}
use fleetsweeper.Store.Alerts.{
  AlertRecord, AlertRow, AlertTable, alert_row, scan_alert_row, with_received_at, upsert_alert,
  get_alert, nullable_time, null_time,
}

null_time-nullable_time : (t : Time) → null_time (nullable_time t) ≡ t
unfolding nullable_time is_zero
null_time-nullable_time t = ground arith

scan_alert_row-alert_row : (r : AlertRecord) → scan_alert_row r.fingerprint (alert_row r) ≡ r
unfolding scan_alert_row alert_row
scan_alert_row-alert_row r =
    rw
      (
        null_text-nullable r.severity,
        null_text-nullable r.summary,
        null_text-nullable r.generator_url,
        null_time-nullable_time r.starts_at,
        null_time-nullable_time r.ends_at,
      )
      refl

-- A healthy connection to a table.
abbrev pub of_table : AlertTable → Conn AlertTable
of_table t = record { table = t; faults = [] }

-- What a read of a fingerprint finds.
abbrev pub stored : String → AlertTable → Result AlertRecord
stored k t = (get_alert k (of_table t)).0

-- A read in terms of the row.
abbrev shown : String → Option AlertRow → Result AlertRecord
shown k none = err err_not_found
shown k (some row) = ok (scan_alert_row k row)

stored-shown : (k : String) (t : AlertTable) → stored k t ≡ shown k (lookup k t)
unfolding get_alert query statement ◌>>=◌ lookup
stored-shown k t = elim (Option-cases (lookup k t)) [ inl e ↦ rw e refl | inr (row, e) ↦ rw e refl ]

upserted :
    (now : Time) (r : AlertRecord) (t : AlertTable)
    → (r.fingerprint == "") ≡ false
    → (upsert_alert now r (of_table t)).1.table
      ≡ insert r.fingerprint (alert_row (with_received_at now r)) t
unfolding upsert_alert exec statement
upserted now r t h = rw (upsert_alert, h) refl

with_received_at-fingerprint :
    (now : Time) (r : AlertRecord) → (with_received_at now r).fingerprint ≡ r.fingerprint
unfolding with_received_at
with_received_at-fingerprint now r = ground arith

-- After an alert with a fingerprint is upserted, a read of that fingerprint gives the alert as it came, with the
-- instant of its receipt if it brought none, and a read of any other gives what it gave before.
pub upsert_alert-get_alert :
    (now : Time) (r : AlertRecord) (k : String) (t : AlertTable)
    → r.fingerprint ≢ ""
    → stored k (upsert_alert now r (of_table t)).1.table
      ≡ (if r.fingerprint == k then ok (with_received_at now r) else stored k t)
upsert_alert-get_alert now r k t h =
    let some_print : (r.fingerprint == "") ≡ false = ground (arith, h, eq_iff r.fingerprint "") in
    let row = alert_row (with_received_at now r) in
    rw (upserted now r t some_print, stored-shown k (insert r.fingerprint row t), stored-shown k t)
      (elim (Bool-cases (r.fingerprint == k)) [
        | inl same ↦
            let key : (with_received_at now r).fingerprint ≡ k =
              with_received_at-fingerprint now r ∙ (eq_iff r.fingerprint k).0 same in
            rw (lookup-insert r.fingerprint k row t, same)
              (ap ok (
                subst (λ f. scan_alert_row f row ≡ with_received_at now r) key
                  (scan_alert_row-alert_row (with_received_at now r))))
        | inr other ↦ rw (lookup-insert r.fingerprint k row t, other) refl
      ])
