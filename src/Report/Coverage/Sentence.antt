-- ===== src/Report/Coverage/Sentence.antt =====
-- The score's headline is silent about coverage only when every run observed the fleet.
use fleetsweeper.Common.{
  ℕ, suc, ◌+◌, ◌≤◌, ◌≡◌, ◌↔◌, Bool, true, false, List, [], ◌∷◌, Option, none, some, String, length,
  All, arith,
}
use fleetsweeper.Report.Coverage.{
  Report, RunState, run_ok, run_degraded, run_unavailable, run_errored, run_state, count_run,
  cluster_run_counts, cover_clusters, FleetCoverage, fleet_coverage, expected_scanners,
  partial_runs, coverage_sentence,
}

abbrev pub observes : Option RunState → Bool
observes none = false
observes (some run_ok) = true
observes (some run_unavailable) = true
observes (some run_degraded) = false
observes (some run_errored) = false

module _ (r : Report) where
  count_run-observes :
      (s : Option RunState) (n : ℕ) (c : ℕ × ℕ)
      → c.0 + c.1 ≤ n
      → ((count_run s c).0 + (count_run s c).1 ≤ suc n)
        × (((count_run s c).0 ≡ suc n) ↔ ((observes s ≡ true) × (c.0 ≡ n)))
  unfolding count_run
  count_run-observes none n (o, b) h = ground arith
  count_run-observes (some run_ok) n (o, b) h = ground arith
  count_run-observes (some run_degraded) n (o, b) h = ground arith
  count_run-observes (some run_unavailable) n (o, b) h = ground arith
  count_run-observes (some run_errored) n (o, b) h = ground arith

  abbrev pub Observed : String → String → Type 0
  Observed cluster name = observes (run_state r name cluster) ≡ true

  cluster_run_counts-Observed :
      (cluster : String) (names : List String)
      → let (o, b) = cluster_run_counts r cluster names in
        (o + b ≤ length names) × ((o ≡ length names) ↔ All (Observed cluster) names)
  unfolding cluster_run_counts
  cluster_run_counts-Observed cluster [] = ground arith
  cluster_run_counts-Observed cluster (name ∷ names) =
      let ih = cluster_run_counts-Observed cluster names in
      ground (
        arith,
        ih,
        count_run-observes (run_state r name cluster) (length names)
            (cluster_run_counts r cluster names) ih.0,
      )

  abbrev pub FullyObserved : List String → String → Type 0
  FullyObserved names cluster = (1 ≤ length names) × All (Observed cluster) names

  module _ (names : List String) where
    cover_clusters-bounds :
        (clusters : List String)
        → let c = cover_clusters r names clusters in
          (c.observed_runs + c.blind_runs ≤ c.expected_runs)
          × ((1 ≤ length names) → c.observed_runs ≡ c.expected_runs → c.blind_clusters ≡ 0)
          × ((length names ≡ 0) → c.expected_runs ≡ 0)
    unfolding cover_clusters
    cover_clusters-bounds [] = ground arith
    cover_clusters-bounds (cluster ∷ more) =
        let counts = cluster_run_counts-Observed cluster names in
        let ih = cover_clusters-bounds more in
        let cells = cluster_run_counts r cluster names in
        (
          omega (arith, ih.0, counts.0),
          λ some all. ground (arith, ih.0, ih.1, counts.0, all, some),
          λ h. omega (arith, ih.2 h, h),
        )

    cover_clusters-FullyObserved :
        (clusters : List String)
        → let c = cover_clusters r names clusters in
          ((c.observed_runs ≡ c.expected_runs) × (c.blind_clusters ≡ 0))
          ↔ All (FullyObserved names) clusters
    unfolding cover_clusters
    cover_clusters-FullyObserved [] = ground arith
    cover_clusters-FullyObserved (cluster ∷ more) =
        let counts = cluster_run_counts-Observed cluster names in
        let bounds = cover_clusters-bounds more in
        ground (arith, bounds.0, counts, cover_clusters-FullyObserved more)

-- The sentence in terms of the counts.
coverage_sentence-none :
    (c : FleetCoverage) (clusters : ℕ)
    → c.observed_runs + c.blind_runs ≤ c.expected_runs
    → (coverage_sentence c clusters ≡ none)
      ↔ ((c.observed_runs ≡ c.expected_runs) × ((c.expected_runs ≡ 0) → c.blind_clusters ≡ 0))
unfolding coverage_sentence partial_runs
coverage_sentence-none c clusters h = ground arith

-- The headline says nothing of coverage exactly when every scanner that the report expects observed every
-- listed cluster, and some scanner is expected if a cluster is listed.
pub coverage_sentence-FullyObserved :
    (r : Report)
    → (coverage_sentence (fleet_coverage r) (length r.clusters) ≡ none)
      ↔ All (FullyObserved r (expected_scanners r)) r.clusters
unfolding fleet_coverage
coverage_sentence-FullyObserved r =
    let names = expected_scanners r in
    let bounds = cover_clusters-bounds r names r.clusters in
    ground (
      arith,
      bounds,
      cover_clusters-FullyObserved r names r.clusters,
      coverage_sentence-none (cover_clusters r names r.clusters) (length r.clusters) bounds.0,
    )
