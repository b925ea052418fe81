-- ===== src/Report/Window.antt =====
-- The entries of `ComputePersistence`: one for every finding of the window, each with its counts.
use fleetsweeper.Common.{
  ◌≤◌, ◌<◌, ◌≡◌, refl, sym, ap, ◌∙◌, Bool, true, List, [], ◌∷◌, Option, none, some, String,
  string_eq, eq_iff, length, contains, arith, All, Option-cases, inl, inr,
}
use fleetsweeper.Common.Map.{Map, lookup}
use fleetsweeper.Report.{Finding}
use fleetsweeper.Report.Persistence.{
  Agg, Seen, FindingPersistence, note_series, recent_streak, reverse, entry_of, entries,
  compute_persistence, persistence_class,
}
use fleetsweeper.Report.Counts.{
  present_of, scans_with, note_series-present, scans_with-length, scans_with-reverse,
  streak-scans_with,
}
use fleetsweeper.Report.Recurrence.{
  is_seen, ListsSeen, note_series-ListsSeen, All-sort_stable, has_entry, has_entry-sort_stable,
}

module _ (sha256 : String → String) where
  -- What an entry says of a window of scans.
  pub record Counted (series : List (List Finding)) (p : FindingPersistence) : Type 0 where
    pub present : p.present ≡ scans_with sha256 series p.fingerprint
    pub total : p.total ≡ length series
    pub bounded : p.present ≤ p.total
    pub streak : p.streak ≤ p.present
    pub class : p.class ≡ persistence_class p.present p.total

  entry_of-Counted :
      (series : List (List Finding)) (acked : String → Bool) (fp : String) (a : Agg)
      → a.present ≡ scans_with sha256 series fp
      → Counted series (entry_of sha256 series acked fp a)
  unfolding recent_streak
  entry_of-Counted series acked fp a e = record {
    present = e;
    total = refl;
    bounded = omega (arith, e, scans_with-length sha256 series fp);
    streak = omega (
      arith,
      e,
      streak-scans_with sha256 (reverse series) fp,
      scans_with-reverse sha256 series fp,
    );
    class = refl;
  }

  entries-Counted :
      (series : List (List Finding)) (acked : String → Bool) (seen : Map String Agg)
      (fps : List String)
      → ((fp : String) → present_of (lookup fp seen) ≡ scans_with sha256 series fp)
      → All (Counted series) (entries sha256 series acked seen fps)
  unfolding entries
  entries-Counted series acked seen [] h = tt
  entries-Counted series acked seen (fp ∷ fps) h = elim (Option-cases (lookup fp seen)) [
    | inl n ↦ rw (n, entries) (entries-Counted series acked seen fps h)
    | inr (a, e) ↦
        rw (e, entries)
          (
            entry_of-Counted series acked fp a (sym (ap present_of e) ∙ h fp),
            entries-Counted series acked seen fps h,
          )
  ]

  entries-has_entry :
      (series : List (List Finding)) (acked : String → Bool) (seen : Map String Agg)
      (fps : List String) (fp : String)
      → contains fps fp ≡ true
      → is_seen (lookup fp seen) ≡ true
      → has_entry (entries sha256 series acked seen fps) fp ≡ true
  unfolding entries
  entries-has_entry series acked seen [] fp c s = ground arith
  entries-has_entry series acked seen (x ∷ fps) fp c s =
      ground (arith, entries-has_entry series acked seen fps fp, eq_iff x fp, c, s)

  abbrev none_seen : Seen
  none_seen = record { seen = []; order = [] }

  counts_of :
      (series : List (List Finding)) (fp : String)
      → present_of (lookup fp (note_series sha256 series none_seen).seen)
        ≡ scans_with sha256 series fp
  unfolding lookup
  counts_of series fp = omega (arith, note_series-present sha256 series none_seen fp)

  none_seen-ListsSeen : ListsSeen none_seen
  unfolding lookup
  none_seen-ListsSeen j = refl

  -- Every entry tells how many scans of the window have its finding, out of how many, with a streak no
  -- longer than that count, and the class that the two numbers give.
  pub compute_persistence-Counted :
      (series : List (List Finding)) (acked : String → Bool)
      → All (Counted series) (compute_persistence sha256 series acked)
  unfolding compute_persistence
  compute_persistence-Counted [] acked = tt
  compute_persistence-Counted (scan ∷ scans) acked =
      let s = note_series sha256 (scan ∷ scans) none_seen in
      All-sort_stable (Counted (scan ∷ scans)) (entries sha256 (scan ∷ scans) acked s.seen s.order)
        (entries-Counted (scan ∷ scans) acked s.seen s.order (counts_of (scan ∷ scans)))

  seen_if_present : (o : Option Agg) → 0 < present_of o → is_seen o ≡ true
  seen_if_present none h = ground (arith, h)
  seen_if_present (some a) h = refl

  -- A finding that some scan of the window has is not left out.
  pub compute_persistence-has_entry :
      (series : List (List Finding)) (acked : String → Bool) (fp : String)
      → 0 < scans_with sha256 series fp
      → has_entry (compute_persistence sha256 series acked) fp ≡ true
  unfolding compute_persistence
  compute_persistence-has_entry [] acked fp h = ground (arith, h)
  compute_persistence-has_entry (scan ∷ scans) acked fp h =
      let s = note_series sha256 (scan ∷ scans) none_seen in
      let is = seen_if_present (lookup fp s.seen) (omega (arith, counts_of (scan ∷ scans) fp, h)) in
      has_entry-sort_stable (entries sha256 (scan ∷ scans) acked s.seen s.order) fp
      ∙ entries-has_entry (scan ∷ scans) acked s.seen s.order fp
          (note_series-ListsSeen sha256 (scan ∷ scans) none_seen none_seen-ListsSeen fp ∙ is) is
