-- ===== src/Store/Acks/History.antt =====
-- Calls on the ack store, in any order and under any failures of the database.
use fleetsweeper.Common.{
  ◌≤◌, ◌≡◌, List, [], ◌∷◌, Option, none, some, String, if◌then◌else◌, arith, eq_iff, string_eq,
  ◌==◌,
}
use fleetsweeper.Common.Map.{
  Unique, lookup-insert, lookup-remove, Unique-insert, Unique-remove, Unique-keep,
}
use fleetsweeper.Store.Time.{Time, format}
use fleetsweeper.Store.Sql.{Result, ok, err, Conn, StoreError}
use fleetsweeper.Store.Acks.{
  AckRecord, AckTable, ack_row, with_created_at, is_live, save_ack, delete_ack, prune_expired_acks,
  or_not_found, get_ack, list_acks, is_acked,
}
use fleetsweeper.Store.Acks.View.{visible, view, view-keep}

pub data Call : Type 0 where
  saves : AckRecord → Call
  deletes gets checks : String → Call
  lists : Call

-- The store after a call at an instant, whatever the call returned.
unfoldable pub step : Time → Call → Conn AckTable → Conn AckTable
step now (saves r) c = (save_ack now r c).1
step now (deletes k) c = (delete_ack k c).1
step now (gets k) c = (get_ack now k c).1
step now (checks k) c = (is_acked now k c).1
step now lists c = (list_acks now c).1

prune-Unique :
    (now : Time) (c : Conn AckTable) → Unique c.table → Unique (prune_expired_acks now c).1.table
unfolding prune_expired_acks
prune-Unique now c u = ground (arith, Unique-keep (is_live (format now)) c.table u)

-- A read leaves the table that its pruning left.
get_ack_table :
    (now : Time) (k : String) (c : Conn AckTable)
    → (get_ack now k c).1.table ≡ (prune_expired_acks now c).1.table
unfolding get_ack or_not_found
get_ack_table now k c = ground arith

is_acked_table :
    (now : Time) (k : String) (c : Conn AckTable)
    → (is_acked now k c).1.table ≡ (prune_expired_acks now c).1.table
unfolding is_acked
is_acked_table now k c = ground arith

list_acks_table :
    (now : Time) (c : Conn AckTable)
    → (list_acks now c).1.table ≡ (prune_expired_acks now c).1.table
unfolding list_acks
list_acks_table now c = ground arith

-- Every call, failing or not, keeps one row at most for a fingerprint.
pub step-Unique :
    (now : Time) (call : Call) (c : Conn AckTable) → Unique c.table → Unique (step now call c).table
unfolding step
step-Unique now (saves r) c u =
    unfold save_ack in
    ground (arith, Unique-insert r.fingerprint (ack_row (with_created_at now r)) c.table u)
step-Unique now (deletes k) c u = unfold delete_ack in ground (arith, Unique-remove k c.table u)
step-Unique now (gets k) c u = rw (get_ack_table now k c) (prune-Unique now c u)
step-Unique now (checks k) c u = rw (is_acked_table now k c) (prune-Unique now c u)
step-Unique now lists c u = rw (list_acks_table now c) (prune-Unique now c u)

prune-view :
    (now later : Time) (k : String) (c : Conn AckTable)
    → now ≤ later
    → Unique c.table
    → view later (prune_expired_acks now c).1.table k ≡ view later c.table k
unfolding prune_expired_acks
prune-view now later k c h u = ground (arith, view-keep now later c.table k h u)

-- What a call that returned without an error means for the acks that a client sees: a save shows its
-- record, a delete hides one, and a read changes nothing.
unfoldable pub expected : Time → Time → Call → AckTable → String → Option AckRecord
unfolding visible
expected now later (saves r) t k =
    if r.fingerprint == k
    then visible later k (some (ack_row (with_created_at now r)))
    else view later t k
expected now later (deletes j) t k = if j == k then none else view later t k
expected now later (gets j) t k = view later t k
expected now later (checks j) t k = view later t k
expected now later lists t k = view later t k

abbrev pub error_of : {A : Type 0} → Result A → Option StoreError
error_of (ok a) = none
error_of (err e) = some e

-- The error that a call returned.
unfoldable pub outcome : Time → Call → Conn AckTable → Option StoreError
outcome now (saves r) c = error_of (save_ack now r c).0
outcome now (deletes k) c = error_of (delete_ack k c).0
outcome now (gets k) c = error_of (get_ack now k c).0
outcome now (checks k) c = error_of (is_acked now k c).0
outcome now lists c = error_of (list_acks now c).0

abbrev pub unless_failed : {A : Type 0} → Option StoreError → A → A → A
unless_failed none expected unchanged = expected
unless_failed (some e) expected unchanged = unchanged

same : {A : Type 0} (o : Option StoreError) (a b : A) → a ≡ b → a ≡ unless_failed o b b
same none a b h = h
same (some e) a b h = h

module _ (now later : Time) (k : String) (c : Conn AckTable) (h : now ≤ later)
    (u : Unique c.table) where
  -- A call that returns no error does to the acks seen at any later instant what its specification
  -- says, and a call that returns an error changes none of them, whatever the database refuses.
  pub step-view :
      (call : Call)
      → view later (step now call c).table k
        ≡ unless_failed
            (outcome now call c)
            (expected now later call c.table k)
            (view later c.table k)
  unfolding step expected outcome
  step-view (saves r) =
      unfold save_ack view in
      ground (
        arith,
        lookup-insert r.fingerprint k (ack_row (with_created_at now r)) c.table,
        eq_iff r.fingerprint k,
      )
  step-view (deletes j) =
      unfold delete_ack view in ground (arith, lookup-remove j k c.table, eq_iff j k)
  step-view (gets j) = rw (get_ack_table now j c) (same _ _ _ (prune-view now later k c h u))
  step-view (checks j) = rw (is_acked_table now j c) (same _ _ _ (prune-view now later k c h u))
  step-view lists = rw (list_acks_table now c) (same _ _ _ (prune-view now later k c h u))

-- The store after a history of calls.
unfoldable pub run : List (Time × Call) → Conn AckTable → Conn AckTable
run [] c = c
run ((now, call) ∷ rest) c = run rest (step now call c)

-- A history of calls, failing or not, keeps one row at most for a fingerprint.
pub run-Unique :
    (calls : List (Time × Call)) (c : Conn AckTable) → Unique c.table → Unique (run calls c).table
unfolding run
run-Unique [] c u = u
run-Unique ((now, call) ∷ rest) c u = run-Unique rest (step now call c) (step-Unique now call c u)
