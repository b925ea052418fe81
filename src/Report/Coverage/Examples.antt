-- ===== src/Report/Coverage/Examples.antt =====
-- Coverage of a fleet of two clusters.
use fleetsweeper.Common.{
  ℕ, ◌≡◌, ◌↔◌, refl, Bool, true, false, List, [], ◌∷◌, Option, none, some, String, All, length,
}
use fleetsweeper.Report.Coverage.{
  Report, run_errored, fleet_coverage, coverage_sentence, expected_scanners, clears_floor,
  unobserved,
}
use fleetsweeper.Report.Coverage.Sentence.{FullyObserved, coverage_sentence-FullyObserved}

abbrev half_blind : Report
half_blind = record {
  clusters = "east" ∷ "west" ∷ [];
  sections = ("nodes", some ("east" ∷ "west" ∷ [])) ∷ ("version", some ("east" ∷ [])) ∷ [];
  degraded = record { scanner = "version"; cluster = "west"; state = run_errored } ∷ [];
}

says_blind : coverage_sentence (fleet_coverage half_blind) 2 ≡ some (unobserved 1 4 none)
unfolding coverage_sentence fleet_coverage fleetsweeper.Common.Map.lookup
    fleetsweeper.Common.Map.insert
says_blind = refl

-- Three runs of four are under the floor.
not_graded : clears_floor (fleet_coverage half_blind) ≡ false
unfolding clears_floor fleet_coverage fleetsweeper.Common.Map.lookup fleetsweeper.Common.Map.insert
not_graded = refl

coverage_sentence-FullyObserved_example :
    (coverage_sentence (fleet_coverage half_blind) (length half_blind.clusters) ≡ none)
    ↔ All (FullyObserved half_blind (expected_scanners half_blind)) half_blind.clusters
coverage_sentence-FullyObserved_example = coverage_sentence-FullyObserved half_blind
