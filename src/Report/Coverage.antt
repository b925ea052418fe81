-- ===== src/Report/Coverage.antt =====
-- How much of the fleet a report's scanner runs observed: internal/report/score.go (fleetCoverage and what
-- follows from it) and indexRuns and runState of internal/report/observe.go.
pub mod Sentence
pub mod Examples
use fleetsweeper.Common.{
  ℕ, zero, suc, ◌+◌, ◌-◌, ◌*◌, Bool, true, false, not, ◌&&◌, ◌||◌, List, [], ◌∷◌, ◌++◌, Option,
  none, some, String, if◌then◌else◌, ltb, leb, eqb, ◌==◌, string_eq, pair_eq, contains, length,
}
use fleetsweeper.Common.Map.{Map, lookup, insert}

pub data RunState : Type 0 where
  run_ok run_degraded run_unavailable run_errored : RunState

pub record ScannerStatus : Type 0 where
  pub scanner : String
  pub cluster : String
  pub state : RunState

-- Of a report: its clusters, the clusters with a payload in each section (none is a nil section), and the
-- runs that did not return complete data.
pub record Report : Type 0 where
  pub clusters : List String
  pub sections : Map String (Option (List String))
  pub degraded : List ScannerStatus

abbrev pub Runs : Type 0
Runs = Map (String × String) RunState

unfoldable pub index_payloads : String → List String → Runs → Runs
index_payloads name [] runs = runs
index_payloads name (c ∷ cs) runs = index_payloads name cs (insert (name, c) run_ok runs)

unfoldable pub index_sections : Map String (Option (List String)) → Runs → Runs
unfolding index_payloads
index_sections [] runs = runs
index_sections ((name, none) ∷ more) runs = index_sections more runs
index_sections ((name, some cs) ∷ more) runs = index_sections more (index_payloads name cs runs)

unfoldable pub index_degraded : List ScannerStatus → Runs → Runs
index_degraded [] runs = runs
index_degraded (d ∷ ds) runs = index_degraded ds (insert (d.scanner, d.cluster) d.state runs)

unfoldable pub index_runs : Report → Runs
unfolding index_sections index_degraded
index_runs r = index_degraded r.degraded (index_sections r.sections [])

unfoldable pub run_state : Report → String → String → Option RunState
unfolding index_runs
run_state r name cluster = lookup (name, cluster) (index_runs r)

abbrev pub add_name : String → List String → List String
add_name n ns = if contains ns n then ns else ns ++ (n ∷ [])

unfoldable pub section_names : Map String (Option (List String)) → List String → List String
section_names [] seen = seen
section_names ((name, s) ∷ more) seen = section_names more (add_name name seen)

unfoldable pub degraded_names : List ScannerStatus → List String → List String
degraded_names [] seen = seen
degraded_names (d ∷ ds) seen = degraded_names ds (add_name d.scanner seen)

-- In the order of the first entry that names each; the program sorts them.
unfoldable pub expected_scanners : Report → List String
unfolding section_names degraded_names
expected_scanners r = degraded_names r.degraded (section_names r.sections [])

-- Observed and blind runs. A degraded run is neither.
unfoldable pub count_run : Option RunState → ℕ × ℕ → ℕ × ℕ
count_run none (o, b) = (o, suc b)
count_run (some run_errored) (o, b) = (o, suc b)
count_run (some run_ok) (o, b) = (suc o, b)
count_run (some run_unavailable) (o, b) = (suc o, b)
count_run (some run_degraded) (o, b) = (o, b)

unfoldable pub cluster_run_counts : Report → String → List String → ℕ × ℕ
unfolding run_state count_run
cluster_run_counts r cluster [] = (0, 0)
cluster_run_counts r cluster (name ∷ names) =
    count_run (run_state r name cluster) (cluster_run_counts r cluster names)

-- `Fraction` is the quotient of two of the counts.
pub record FleetCoverage : Type 0 where
  pub expected_runs : ℕ
  pub observed_runs : ℕ
  pub blind_runs : ℕ
  pub blind_clusters : ℕ

unfoldable pub cover_clusters : Report → List String → List String → FleetCoverage
unfolding cluster_run_counts
cover_clusters r names [] = record {
  expected_runs = 0;
  observed_runs = 0;
  blind_runs = 0;
  blind_clusters = 0;
}
cover_clusters r names (cluster ∷ more) =
    let c = cover_clusters r names more in
    let (observed, blind) = cluster_run_counts r cluster names in
    record {
      expected_runs = c.expected_runs + length names;
      observed_runs = c.observed_runs + observed;
      blind_runs = c.blind_runs + blind;
      blind_clusters = c.blind_clusters + (if eqb observed 0 then 1 else 0);
    }

unfoldable pub fleet_coverage : Report → FleetCoverage
unfolding cover_clusters expected_scanners
fleet_coverage r = cover_clusters r (expected_scanners r) r.clusters

-- The quotient is compared to 0.8 exactly: dividing first rounds to the nearest float64, which keeps order.
unfoldable pub clears_floor : FleetCoverage → Bool
clears_floor c =
    if ltb 0 c.blind_clusters
    then false
    else eqb c.expected_runs 0 || leb (8 * c.expected_runs) (10 * c.observed_runs)

unfoldable pub partial_runs : FleetCoverage → ℕ
partial_runs c = c.expected_runs - c.observed_runs - c.blind_runs

-- What the sentence says of the runs, and of how many clusters it says that they had no complete run.
pub data CoverageSentence : Type 0 where
  no_scanner_ran : ℕ → CoverageSentence
  unobserved_and_partial : ℕ → ℕ → ℕ → Option (ℕ × ℕ) → CoverageSentence
  unobserved : ℕ → ℕ → Option (ℕ × ℕ) → CoverageSentence
  partial : ℕ → ℕ → Option (ℕ × ℕ) → CoverageSentence

-- None is the empty text.
unfoldable pub coverage_sentence : FleetCoverage → ℕ → Option CoverageSentence
unfolding partial_runs
coverage_sentence c clusters =
    let left = partial_runs c in
    let blind : Option (ℕ × ℕ) =
      if ltb 0 c.blind_clusters then some (c.blind_clusters, clusters) else none in
    if eqb c.expected_runs 0 && eqb c.blind_clusters 0
    then none
    else if eqb c.expected_runs 0
    then some (no_scanner_ran c.blind_clusters)
    else if ltb 0 c.blind_runs && ltb 0 left
    then some (unobserved_and_partial c.blind_runs c.expected_runs left blind)
    else if ltb 0 c.blind_runs
    then some (unobserved c.blind_runs c.expected_runs blind)
    else if ltb 0 left
    then some (partial left c.expected_runs blind)
    else none

-- Clusters with data, sections with data.
unfoldable pub contributed : Map String (Option (List String)) → List String
contributed [] = []
contributed ((name, none) ∷ more) = contributed more
contributed ((name, some cs) ∷ more) = cs ++ contributed more

unfoldable pub dimensions : Map String (Option (List String)) → ℕ
dimensions [] = 0
dimensions ((name, none) ∷ more) = dimensions more
dimensions ((name, some []) ∷ more) = dimensions more
dimensions ((name, some (c ∷ cs)) ∷ more) = suc (dimensions more)

abbrev pub count_in : List String → List String → ℕ
count_in given [] = 0
count_in given (c ∷ cs) =
    let rest = count_in given cs in if contains given c then suc rest else rest

-- The sample, the dimensions, and the clusters left out.
unfoldable pub score_provenance : Report → ℕ × ℕ × ℕ
unfolding contributed dimensions
score_provenance r =
    let sample = count_in (contributed r.sections) r.clusters in
    (sample, dimensions r.sections, length r.clusters - sample)
