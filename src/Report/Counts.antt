-- ===== src/Report/Counts.antt =====
-- The counts of `ComputePersistence` are the numbers of scans, and it leaves no finding out.
use fleetsweeper.Common.{
  ℕ, ◌+◌, ◌≤◌, ◌≡◌, refl, Bool, not, ◌&&◌, List, [], ◌∷◌, ◌++◌, Option, none, some, String,
  if◌then◌else◌, ◌==◌, string_eq, eq_iff, length, contains, arith, Option-cases, inl, inr,
}
use fleetsweeper.Common.Map.{lookup, lookup-insert}
use fleetsweeper.Report.{Finding}
use fleetsweeper.Report.Persistence.{
  Agg, Seen, note_finding, print_of, note_scan, note_series, has_print, streak_from, reverse,
  counted, first_seen,
}

abbrev pub present_of : Option Agg → ℕ
present_of none = 0
present_of (some a) = a.present

abbrev pub one_if : Bool → ℕ
one_if b = if b then 1 else 0

note_finding-present :
    (fp j : String) (f : Finding) (s : Seen)
    → present_of (lookup j (note_finding fp f s).seen)
      ≡ present_of (lookup j s.seen) + one_if (fp == j)
unfolding note_finding
note_finding-present fp j f s = elim (Option-cases (lookup fp s.seen)) [
  | inl n ↦ ground (arith, n, lookup-insert fp j (counted f (first_seen f)) s.seen, eq_iff fp j)
  | inr (a, e) ↦ ground (arith, e, lookup-insert fp j (counted f a) s.seen, eq_iff fp j)
]

module _ (sha256 : String → String) where
  note_scan-present :
      (in_scan : List String) (fs : List Finding) (s : Seen) (j : String)
      → present_of (lookup j (note_scan sha256 in_scan fs s).seen)
        ≡ present_of (lookup j s.seen) + one_if (not (contains in_scan j) && has_print sha256 fs j)
  unfolding note_scan has_print
  note_scan-present in_scan [] s j = ground arith
  note_scan-present in_scan (f ∷ fs) s j = ground (
    arith,
    note_scan-present in_scan fs s j,
    note_scan-present (print_of sha256 f ∷ in_scan) fs (note_finding (print_of sha256 f) f s) j,
    note_finding-present (print_of sha256 f) j f s,
    eq_iff (print_of sha256 f) j,
  )

  -- The scans of a series that have a finding.
  abbrev pub scans_with : List (List Finding) → String → ℕ
  scans_with [] fp = 0
  scans_with (scan ∷ scans) fp = one_if (has_print sha256 scan fp) + scans_with scans fp

  pub note_series-present :
      (series : List (List Finding)) (s : Seen) (j : String)
      → present_of (lookup j (note_series sha256 series s).seen)
        ≡ present_of (lookup j s.seen) + scans_with series j
  unfolding note_series
  note_series-present [] s j = omega arith
  note_series-present (scan ∷ scans) s j = omega (
    arith,
    note_series-present scans (note_scan sha256 [] scan s) j,
    note_scan-present [] scan s j,
  )

  pub scans_with-length :
      (series : List (List Finding)) (j : String) → scans_with series j ≤ length series
  scans_with-length [] j = omega arith
  scans_with-length (scan ∷ scans) j = ground (arith, scans_with-length scans j)

  scans_with-append :
      (xs ys : List (List Finding)) (j : String)
      → scans_with (xs ++ ys) j ≡ scans_with xs j + scans_with ys j
  scans_with-append [] ys j = omega arith
  scans_with-append (x ∷ xs) ys j = omega (arith, scans_with-append xs ys j)

  pub scans_with-reverse :
      (xs : List (List Finding)) (j : String) → scans_with (reverse xs) j ≡ scans_with xs j
  scans_with-reverse [] j = refl
  scans_with-reverse (x ∷ xs) j =
      omega (arith, scans_with-append (reverse xs) (x ∷ []) j, scans_with-reverse xs j)

  pub streak-scans_with :
      (newest_first : List (List Finding)) (j : String)
      → streak_from sha256 newest_first j ≤ scans_with newest_first j
  unfolding streak_from
  streak-scans_with [] j = omega arith
  streak-scans_with (scan ∷ older) j = ground (arith, streak-scans_with older j)
