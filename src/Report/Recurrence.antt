-- ===== src/Report/Recurrence.antt =====
-- What `ComputePersistence` returns for a window of scans.
use fleetsweeper.Common.{
  ◌≡◌, refl, Bool, true, false, ◌||◌, List, [], ◌∷◌, ◌++◌, Option, none, some, String, ◌==◌,
  string_eq, eq_iff, contains, arith, All, Bool-cases, Option-cases, inl, inr,
}
use fleetsweeper.Common.Map.{lookup, lookup-insert}
use fleetsweeper.Report.{Finding}
use fleetsweeper.Report.Persistence.{
  Agg, Seen, FindingPersistence, note_finding, print_of, note_scan, note_series, comes_before,
  insert_sorted, sort_stable, counted, first_seen,
}

abbrev pub is_seen : Option Agg → Bool
is_seen none = false
is_seen (some a) = true

-- The order lists exactly the findings that were seen.
abbrev pub ListsSeen : Seen → Type 0
ListsSeen s = (j : String) → contains s.order j ≡ is_seen (lookup j s.seen)

contains-snoc :
    (xs : List String) (x j : String) → contains (xs ++ x ∷ []) j ≡ contains xs j || (x == j)
contains-snoc [] x j = ground arith
contains-snoc (y ∷ ys) x j = ground (arith, contains-snoc ys x j)

note_finding-ListsSeen :
    (fp : String) (f : Finding) (s : Seen) → ListsSeen s → ListsSeen (note_finding fp f s)
unfolding note_finding
note_finding-ListsSeen fp f s h j = elim (Option-cases (lookup fp s.seen)) [
  | inl n ↦ ground (
    arith,
    n,
    h j,
    contains-snoc s.order fp j,
    lookup-insert fp j (counted f (first_seen f)) s.seen,
    eq_iff fp j,
  )
  | inr (a, e) ↦ ground (arith, e, h j, h fp, lookup-insert fp j (counted f a) s.seen, eq_iff fp j)
]

module _ (sha256 : String → String) where
  note_scan-ListsSeen :
      (in_scan : List String) (fs : List Finding) (s : Seen)
      → ListsSeen s
      → ListsSeen (note_scan sha256 in_scan fs s)
  unfolding note_scan
  note_scan-ListsSeen in_scan [] s h = h
  note_scan-ListsSeen in_scan (f ∷ fs) s h =
      elim (Bool-cases (contains in_scan (print_of sha256 f))) [
        | inl e ↦ rw e (note_scan-ListsSeen in_scan fs s h)
        | inr e ↦ rw e (
            note_scan-ListsSeen (print_of sha256 f ∷ in_scan) fs
              (note_finding (print_of sha256 f) f s)
              (note_finding-ListsSeen (print_of sha256 f) f s h))
      ]

  pub note_series-ListsSeen :
      (series : List (List Finding)) (s : Seen)
      → ListsSeen s
      → ListsSeen (note_series sha256 series s)
  unfolding note_series
  note_series-ListsSeen [] s h = h
  note_series-ListsSeen (scan ∷ scans) s h =
      note_series-ListsSeen scans (note_scan sha256 [] scan s) (note_scan-ListsSeen [] scan s h)

module _ (P : FindingPersistence → Type 0) where
  All-insert_sorted :
      (a : FindingPersistence) (bs : List FindingPersistence)
      → P a
      → All P bs
      → All P (insert_sorted a bs)
  unfolding insert_sorted
  All-insert_sorted a [] p h = (p, tt)
  All-insert_sorted a (b ∷ bs) p h = elim (Bool-cases (comes_before b a)) [
    | inl e ↦ rw e (h.0, All-insert_sorted a bs p h.1)
    | inr e ↦ rw e (p, h)
  ]

  pub All-sort_stable : (bs : List FindingPersistence) → All P bs → All P (sort_stable bs)
  unfolding sort_stable
  All-sort_stable [] h = tt
  All-sort_stable (b ∷ bs) h = All-insert_sorted b (sort_stable bs) h.0 (All-sort_stable bs h.1)

-- Some entry has the fingerprint.
abbrev pub has_entry : List FindingPersistence → String → Bool
has_entry [] fp = false
has_entry (p ∷ ps) fp = p.fingerprint == fp || has_entry ps fp

has_entry-insert_sorted :
    (a : FindingPersistence) (bs : List FindingPersistence) (fp : String)
    → has_entry (insert_sorted a bs) fp ≡ (a.fingerprint == fp || has_entry bs fp)
unfolding insert_sorted
has_entry-insert_sorted a [] fp = refl
has_entry-insert_sorted a (b ∷ bs) fp = ground (arith, has_entry-insert_sorted a bs fp)

pub has_entry-sort_stable :
    (bs : List FindingPersistence) (fp : String) → has_entry (sort_stable bs) fp ≡ has_entry bs fp
unfolding sort_stable
has_entry-sort_stable [] fp = refl
has_entry-sort_stable (b ∷ bs) fp =
    ground (arith, has_entry-insert_sorted b (sort_stable bs) fp, has_entry-sort_stable bs fp)
