-- ===== src/Report/Scores/Examples.antt =====
-- Scores of a cluster and of a fleet.
use fleetsweeper.Common.{
  ℕ, ◌+◌, ◌*◌, ◌⊎◌, ◌≢◌, min, ◌≤◌, ◌≡◌, refl, Bool, true, false, List, [], ◌∷◌, ◌++◌, Option, none,
  some, String, All, arith, ◌==◌, string_eq,
}
use fleetsweeper.Common.Integers.{pos}
use fleetsweeper.Common.Floats.{ratio, nan}
use fleetsweeper.Report.{Finding}
use fleetsweeper.Report.Scores.{ClusterHealth, status_cost, load_cost, compute_cluster_score}
use fleetsweeper.Report.Scores.Tally.{number_of}
use fleetsweeper.Report.Scores.Charges.{compute_cluster_score-antitone}
use fleetsweeper.Report.Scores.Ledger.{versions_of, version_skew_severity}
use fleetsweeper.Report.Scores.Fleet.{fleet_points}
use fleetsweeper.Report.Scores.Fleet.Floor.{fleet_points-Quiet}

abbrev found : String → Finding
found severity = record {
  severity = severity;
  cluster = "east";
  scanner = "nodes";
  rule = "nodes/pressure";
  title = "node under pressure";
  marks = [];
}

-- One of two nodes is down, and the processors are busy.
abbrev east : ClusterHealth
east = record {
  name = "east";
  status = "degraded";
  version = some (1, (31, 2));
  node_count = 2;
  healthy_nodes = 1;
  avg_cpu = ratio (pos 90) 0;
  avg_memory = nan;
  blind_scanners = 0;
}

-- 2 for the warning, 10 for the status, 5 for the load and 7.5 for the nodes.
scores_east : (compute_cluster_score east (found "warning" ∷ [])).score ≡ 76
unfolding compute_cluster_score fleetsweeper.Common.Floats.float_at_least
scores_east = refl

abbrev calm : ClusterHealth
calm = record {
  name = "west";
  status = "healthy";
  version = some (1, (31, 4));
  node_count = 3;
  healthy_nodes = 3;
  avg_cpu = ratio (pos 20) 0;
  avg_memory = ratio (pos 30) 0;
  blind_scanners = 0;
}

abbrev here : String → Finding
here severity = record (found severity) { cluster = "west" }

compute_cluster_score-antitone_example :
    let fewer = here "warning" ∷ here "info" ∷ [] in
    let more = here "warning" ∷ here "critical" ∷ here "info" ∷ [] in
    ((compute_cluster_score calm more).score ≤ (compute_cluster_score calm fewer).score)
    × ((calm.healthy_nodes ≢ calm.node_count)
        ⊎ ((compute_cluster_score calm more).score
              + min (8 * number_of calm.name "critical" more) 40
              + min (2 * number_of calm.name "warning" more) 24
              + status_cost calm.status
              + load_cost calm.avg_cpu
              + load_cost calm.avg_memory
            ≡ 100))
compute_cluster_score-antitone_example =
    compute_cluster_score-antitone calm (here "warning" ∷ []) (here "info" ∷ []) (here "critical")

abbrev noisy : List Finding
noisy = found "warning" ∷ found "info" ∷ found "warning" ∷ []

fleet_points-Quiet_example :
    (35 ≤ fleet_points noisy (calm ∷ calm ∷ []))
    × (All (λ f. f.severity == "critical" ≡ false) noisy
        → 71 ≤ fleet_points noisy (calm ∷ calm ∷ []))
unfolding version_skew_severity versions_of
fleet_points-Quiet_example =
    fleet_points-Quiet noisy (calm ∷ calm ∷ [])
      ((refl, refl, omega arith), ((refl, refl, omega arith), tt)) refl

-- 3 points for the warnings and a quarter for the info.
points_of_noise : fleet_points noisy (calm ∷ calm ∷ []) ≡ 97
unfolding fleet_points fleetsweeper.Common.Map.insert fleetsweeper.Common.Map.lookup
points_of_noise = refl
