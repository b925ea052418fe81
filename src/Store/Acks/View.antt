-- ===== src/Store/Acks/View.antt =====
-- What a client can see of `finding_acks`: the acks that have not run out.
use fleetsweeper.Common.{
  is_some, ℕ, ◌≤◌, ◌≡◌, refl, false, Option, none, some, String, if◌then◌else◌, arith, string_eq,
}
use fleetsweeper.Common.Map.{lookup, keep, keep_value, Unique, lookup-keep}
use fleetsweeper.Store.Time.{Time, format}
use fleetsweeper.Store.Sql.{Result, ok, err, Conn, Healthy, err_not_found}
use fleetsweeper.Store.Acks.{
  AckRecord, AckRow, AckTable, scan_ack_row, is_live, or_not_found, get_ack, is_acked,
}

unfoldable pub visible : Time → String → Option AckRow → Option AckRecord
unfolding is_live format scan_ack_row
visible now fingerprint none = none
visible now fingerprint (some row) =
    if is_live (format now) fingerprint row then some (scan_ack_row fingerprint row) else none

-- The ack that covers a finding at an instant.
unfoldable pub view : Time → AckTable → String → Option AckRecord
unfolding visible
view now t fingerprint = visible now fingerprint (lookup fingerprint t)

abbrev pub found : Option AckRecord → Result AckRecord
found none = err err_not_found
found (some r) = ok r

-- An ack that has run out stays so.
live_later :
    (now later : ℕ) (k : String) (row : AckRow)
    → now ≤ later
    → is_live now k row ≡ false
    → is_live later k row ≡ false
unfolding is_live
live_later now later k row h e = ground arith

format-le : (now later : Time) → now ≤ later → format now ≤ format later
unfolding format
format-le now later h = grind arith

visible-keep_value :
    (now later : Time) (k : String) (o : Option AckRow)
    → now ≤ later
    → visible later k (keep_value (is_live (format now)) k o) ≡ visible later k o
unfolding visible
visible-keep_value now later k none h = refl
visible-keep_value now later k (some row) h =
    ground (arith, live_later (format now) (format later) k row (format-le now later h))

-- Dropping what has run out shows at no later instant.
pub view-keep :
    (now later : Time) (t : AckTable) (k : String)
    → now ≤ later
    → Unique t
    → view later (keep (is_live (format now)) t) k ≡ view later t k
unfolding view
view-keep now later t k h u =
    rw (lookup-keep (is_live (format now)) k t u) (visible-keep_value now later k (lookup k t) h)

-- After the drop a row that is left is an ack that covers its finding.
lookup_live :
    (now : Time) (k : String) (o : Option AckRow) (c : Conn AckTable)
    → (or_not_found k (keep_value (is_live (format now)) k o) c).0 ≡ found (visible now k o)
unfolding or_not_found visible
lookup_live now k none c = refl
lookup_live now k (some row) c = ground arith

module _ (now : Time) (k : String) (c : Conn AckTable) (healthy : Healthy c)
    (u : Unique c.table) where
  -- `GetAck` returns the ack that covers the finding now, and `ErrNotFound` when none does.
  pub get_ack-view : (get_ack now k c).0 ≡ found (view now c.table k)
  unfolding get_ack view
  get_ack-view = simp (healthy, lookup-keep) (lookup_live now k (lookup k c.table) _)

  -- `IsAcked` says whether `GetAck` would find one.
  pub is_acked-view : (is_acked now k c).0 ≡ ok (is_some (view now c.table k))
  unfolding is_acked view visible
  is_acked-view = ground (arith, lookup-keep (is_live (format now)) k c.table u)
