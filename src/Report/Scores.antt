-- ===== src/Report/Scores.antt =====
-- The health of a cluster and its score: internal/report/cluster_score.go, generateClusterHealth of
-- internal/report/findings.go, and grade of internal/report/score.go.
-- Costs are counted exactly, in parts of which a point has as many as the cluster has nodes; the program adds
-- them as float64.
pub mod Monotone
pub mod Tally
pub mod Charges
pub mod Ledger
pub mod Fleet
pub mod Examples
use fleetsweeper.Common.{
  ℕ, zero, suc, ◌+◌, ◌-◌, ◌*◌, ◌/◌, min, Bool, true, false, not, ◌&&◌, ◌||◌, List, [], ◌∷◌, Option,
  none, some, String, if◌then◌else◌, ltb, leb, eqb, ◌==◌, string_eq, map,
}
use fleetsweeper.Common.Floats.{Float, float_at_least}
use fleetsweeper.Report.{Finding, ClusterMark}

pub record SeverityCounts : Type 0 where
  pub critical : ℕ
  pub warning : ℕ
  pub info : ℕ

unfoldable pub count_severity : String → SeverityCounts → SeverityCounts
count_severity s c =
    if s == "critical"
    then record c { critical = suc c.critical }
    else if s == "warning"
    then record c { warning = suc c.warning }
    else if s == "info"
    then record c { info = suc c.info }
    else c

unfoldable pub count_marks : String → List ClusterMark → SeverityCounts → SeverityCounts
unfolding count_severity
count_marks cluster [] c = c
count_marks cluster (m ∷ ms) c =
    count_marks cluster ms (if m.cluster == cluster then count_severity m.severity c else c)

unfoldable pub count_finding : String → Finding → SeverityCounts → SeverityCounts
unfolding count_severity count_marks
count_finding cluster f c =
    count_marks cluster f.marks (if f.cluster == cluster then count_severity f.severity c else c)

abbrev pub no_severities : SeverityCounts
no_severities = record { critical = 0; warning = 0; info = 0 }

unfoldable pub count_findings : String → List Finding → SeverityCounts → SeverityCounts
unfolding count_finding
count_findings cluster [] c = c
count_findings cluster (f ∷ fs) c = count_findings cluster fs (count_finding cluster f c)

unfoldable pub cluster_severity_counts : String → List Finding → SeverityCounts
unfolding count_findings
cluster_severity_counts cluster findings = count_findings cluster findings no_severities

unfoldable pub cluster_charges : String → List Finding → ℕ × ℕ
unfolding cluster_severity_counts
cluster_charges cluster findings =
    let c = cluster_severity_counts cluster findings in (c.critical, c.warning)

-- Of a cluster's health, what the scores read. The version is what parseSemver makes of it.
pub record ClusterHealth : Type 0 where
  pub name : String
  pub status : String
  pub version : Option (ℕ × (ℕ × ℕ))
  pub node_count : ℕ
  pub healthy_nodes : ℕ
  pub avg_cpu : Float
  pub avg_memory : Float
  pub blind_scanners : ℕ

-- `generateClusterHealth` for one cluster: the status from its counts and its blind runs.
unfoldable pub health_status : SeverityCounts → ℕ → String
health_status counts blind =
    if ltb 0 counts.critical
    then "critical"
    else if ltb 0 counts.warning
    then "degraded"
    else if ltb 0 blind
    then "unknown"
    else "healthy"

unfoldable pub status_cost : String → ℕ
status_cost status =
    if status == "critical"
    then 20
    else if status == "degraded" || status == "strained" || status == "unknown"
    then 10
    else if status == "busy"
    then 3
    else 0

-- The parts of a point: one for each node.
unfoldable pub parts_of : ClusterHealth → ℕ
parts_of h = if eqb h.node_count 0 then 1 else h.node_count

unfoldable pub load_cost : Float → ℕ
load_cost f = if float_at_least 85 f then 5 else 0

-- The whole points that findings, status and load cost.
unfoldable pub cluster_points : ClusterHealth → ℕ × ℕ → ℕ
unfolding status_cost load_cost
cluster_points h (crit, warn) =
    min (crit * 8) 40
    + min (warn * 2) 24
    + status_cost h.status
    + load_cost h.avg_cpu
    + load_cost h.avg_memory

-- In parts of a point, with the share of the unhealthy nodes.
unfoldable pub cluster_cost : ClusterHealth → ℕ × ℕ → ℕ
unfolding parts_of cluster_points
cluster_cost h charges =
    cluster_points h charges * parts_of h + 15 * (h.node_count - h.healthy_nodes)

-- `math.Round` of `num` parts, half away from zero.
unfoldable pub round_parts : ℕ → ℕ → ℕ
round_parts num parts = (2 * num + parts) / (2 * parts)

unfoldable pub grade_of : ℕ → String
grade_of score =
    if leb 90 score
    then "A"
    else if leb 80 score
    then "B"
    else if leb 70 score
    then "C"
    else if leb 60 score
    then "D"
    else "F"

-- The text's numbers with its band, the least score of the band.
pub data ClusterHeadline : Type 0 where
  healthy : ClusterHeadline
  mostly_healthy : ℕ → ClusterHeadline
  drift_building : ℕ → ℕ → ClusterHeadline
  significant_drift : ℕ → ℕ → ClusterHeadline
  degraded : ℕ → ClusterHeadline
  unknown : ℕ → ClusterHeadline

unfoldable pub cluster_headline : ℕ → ℕ → ℕ → ClusterHeadline
cluster_headline score critical warning =
    if leb 95 score
    then healthy
    else if leb 85 score
    then mostly_healthy warning
    else if leb 70 score
    then drift_building critical warning
    else if leb 50 score
    then significant_drift critical warning
    else degraded critical

pub record ClusterScore : Type 0 where
  pub cluster : String
  pub score : ℕ
  pub grade : String
  pub headline : ClusterHeadline

unfoldable pub compute_cluster_score : ClusterHealth → List Finding → ClusterScore
unfolding cluster_charges cluster_cost parts_of round_parts grade_of cluster_headline
compute_cluster_score h findings =
    let charges = cluster_charges h.name findings in
    let score = round_parts (100 * parts_of h - cluster_cost h charges) (parts_of h) in
    record {
      cluster = h.name;
      score = score;
      grade = grade_of score;
      headline =
          if h.status == "unknown"
          then unknown h.blind_scanners
          else cluster_headline score charges.0 charges.1;
    }

unfoldable pub compute_cluster_scores : List ClusterHealth → List Finding → List ClusterScore
unfolding compute_cluster_score
compute_cluster_scores [] findings = []
compute_cluster_scores (h ∷ hs) findings =
    compute_cluster_score h findings ∷ compute_cluster_scores hs findings
