-- ===== src/Report/Scores/Ledger.antt =====
-- The cost ledger of the fleet's score: computeScoreAttribution of
-- internal/report/score_attribution.go, and versionSkewSeverity of internal/report/severity.go.
-- Costs are counted exactly, in parts of a point that depend on the fleet; the program adds them as float64.
use fleetsweeper.Common.{
  ℕ, suc, ◌+◌, ◌-◌, ◌*◌, min, Bool, not, ◌||◌, List, [], ◌∷◌, ◌++◌, none, some, String,
  if◌then◌else◌, ltb, leb, eqb, ◌==◌, string_eq, nat_eq, pair_eq, length, contains,
}
use fleetsweeper.Common.Map.{Map, lookup, insert}
use fleetsweeper.Report.{Finding}
use fleetsweeper.Report.Scores.{ClusterHealth}

pub data Term : Type 0 where
  critical_findings warning_findings info_findings : Term
  critical_clusters degraded_clusters version_skew worst_node : Term

-- An entry's share of its term's cost is raw · cost / total, the term's cost and its cost before the cap.
pub record ScoreEntry : Type 0 where
  pub term : Term
  pub rule : String
  pub cluster : String
  pub raw : ℕ

pub record ScoreTerm : Type 0 where
  pub term : Term
  pub count : ℕ
  pub raw : ℕ
  pub cost : ℕ

pub record Ledger : Type 0 where
  pub terms : List ScoreTerm
  pub entries : List ScoreEntry

unfoldable pub raw_sum : List ScoreEntry → ℕ
raw_sum [] = 0
raw_sum (e ∷ es) = e.raw + raw_sum es

-- A limit of 0 is none.
unfoldable pub capped : ℕ → ℕ → ℕ
capped limit raw = if ltb 0 limit then min raw limit else raw

unfoldable pub add_term : Term → ℕ → ℕ → List ScoreEntry → Ledger → Ledger
unfolding raw_sum capped
add_term term count limit entries a =
    let raw = raw_sum entries in
    if eqb raw 0 then a else record {
      terms =
          a.terms
          ++ (record { term = term; count = count; raw = raw; cost = capped limit raw } ∷ []);
      entries = a.entries ++ entries;
    }

-- Quarters of a point have this many parts.
pub record Parts : Type 0 where
  -- the clusters, or 1
  pub fleet : ℕ
  -- the nodes of the cluster with the worst ratio, or 1
  pub nodes : ℕ

abbrev pub quarter : Parts → ℕ
quarter p = p.fleet * p.nodes

-- Findings of one severity by rule and cluster, how many of each.
unfoldable pub tally_findings :
    String → List Finding → Map (String × String) ℕ → Map (String × String) ℕ
tally_findings severity [] m = m
tally_findings severity (f ∷ fs) m =
    let key : String × String = (f.rule, f.cluster) in
    let before : ℕ = elim (lookup key m) [ none ↦ 0 | some n ↦ n ] in
    tally_findings severity fs (if f.severity == severity then insert key (suc before) m else m)

unfoldable pub finding_entries : Term → ℕ → Map (String × String) ℕ → List ScoreEntry
finding_entries term per [] = []
finding_entries term per ((key, n) ∷ more) =
    record { term = term; rule = key.0; cluster = key.1; raw = n * per }
    ∷ finding_entries term per more

abbrev pub count_of : String → List Finding → ℕ
count_of severity [] = 0
count_of severity (f ∷ fs) =
    let rest = count_of severity fs in if f.severity == severity then suc rest else rest

unfoldable pub add_severity : Term → String → ℕ → ℕ → List Finding → Ledger → Ledger
unfolding add_term tally_findings finding_entries
add_severity term severity per limit findings a =
    add_term term (count_of severity findings) limit
      (finding_entries term per (tally_findings severity findings [])) a

-- 6, 1.5 and 0.25 points for a finding, at most 36, 24 and 5.
unfoldable pub add_finding_terms : ℕ → List Finding → Ledger → Ledger
unfolding add_severity
add_finding_terms q findings a = add_severity info_findings "info" q (20 * q) findings (
    add_severity warning_findings "warning" (6 * q) (96 * q) findings
      (add_severity critical_findings "critical" (24 * q) (144 * q) findings a))

unfoldable pub cluster_entries : Term → (String → Bool) → ℕ → List ClusterHealth → List ScoreEntry
cluster_entries term test raw [] = []
cluster_entries term test raw (h ∷ hs) =
    let rest = cluster_entries term test raw hs in
    if test h.status
    then record { term = term; rule = ""; cluster = h.name; raw = raw } ∷ rest
    else rest

abbrev pub is_critical : String → Bool
is_critical status = status == "critical"

abbrev pub is_degraded : String → Bool
is_degraded status = status == "degraded" || status == "strained"

-- A share of 20 points for each critical cluster, of 10 for each degraded one.
unfoldable pub add_cluster_health_terms : Parts → List ClusterHealth → Ledger → Ledger
unfolding add_term cluster_entries
add_cluster_health_terms p healths a =
    let crit = cluster_entries critical_clusters is_critical (80 * p.nodes) healths in
    let deg = cluster_entries degraded_clusters is_degraded (40 * p.nodes) healths in
    add_term degraded_clusters (length deg) 0 deg
      (add_term critical_clusters (length crit) 0 crit a)

-- Major, minor and patch.
abbrev pub Version : Type 0
Version = ℕ × (ℕ × ℕ)

unfoldable pub versions_of : List ClusterHealth → List Version
versions_of [] = []
versions_of (h ∷ hs) = elim h.version [ none ↦ versions_of hs | some v ↦ v ∷ versions_of hs ]

unfoldable pub distinct : List Version → List Version
distinct [] = []
distinct (v ∷ vs) = let rest = distinct vs in if contains rest v then rest else v ∷ rest

abbrev pub lowest_minor : ℕ → List Version → ℕ
lowest_minor m [] = m
lowest_minor m (v ∷ vs) = lowest_minor (min m v.1.0) vs

abbrev pub highest_minor : ℕ → List Version → ℕ
highest_minor m [] = m
highest_minor m (v ∷ vs) = highest_minor (if ltb m v.1.0 then v.1.0 else m) vs

unfoldable pub version_skew_severity : List Version → String
unfolding distinct
version_skew_severity [] = "info"
version_skew_severity (v ∷ vs) =
    let low = lowest_minor v.1.0 vs in
    let high = highest_minor v.1.0 vs in
    if leb (length (distinct (v ∷ vs))) 1
    then "info"
    else if leb 2 (high - low)
    then "critical"
    else if not (eqb high low)
    then "warning"
    else "info"

abbrev pub skew_entry : ℕ → List ScoreEntry
skew_entry raw = record { term = version_skew; rule = "version/skew"; cluster = ""; raw = raw } ∷ []

-- 10 points for a skew beyond one minor version, 3 for one.
unfoldable pub add_version_skew_term : ℕ → List ClusterHealth → Ledger → Ledger
unfolding add_term versions_of version_skew_severity
add_version_skew_term q healths a =
    let severity = version_skew_severity (versions_of healths) in
    if ltb (length healths) 2
    then a
    else if severity == "critical"
    then add_term version_skew 1 0 (skew_entry (40 * q)) a
    else if severity == "warning"
    then add_term version_skew 1 0 (skew_entry (12 * q)) a
    else a

-- Unhealthy nodes out of all nodes, and whose they are.
pub record WorstNode : Type 0 where
  pub unhealthy : ℕ
  pub out_of : ℕ
  pub cluster : String

unfoldable pub find_worst : WorstNode → List ClusterHealth → WorstNode
find_worst w [] = w
find_worst w (h ∷ hs) =
    let unhealthy = h.node_count - h.healthy_nodes in
    find_worst
      (if ltb (w.unhealthy * h.node_count) (unhealthy * w.out_of)
        then record { unhealthy = unhealthy; out_of = h.node_count; cluster = h.name }
        else w)
      hs

abbrev pub no_worst : WorstNode
no_worst = record { unhealthy = 0; out_of = 1; cluster = "" }

-- Ten points in the ratio of the worst cluster.
unfoldable pub add_worst_node_term : ℕ → WorstNode → Ledger → Ledger
unfolding add_term
add_worst_node_term fleet w a =
    if eqb w.unhealthy 0
    then a
    else add_term worst_node 1 0
        (record {
          term = worst_node;
          rule = "";
          cluster = w.cluster;
          raw = 40 * fleet * w.unhealthy;
        }
          ∷ [])
        a

unfoldable pub parts_of_fleet : List ClusterHealth → Parts
unfolding find_worst
parts_of_fleet healths = record {
  fleet = if eqb (length healths) 0 then 1 else length healths;
  nodes = (find_worst no_worst healths).out_of;
}

unfoldable pub compute_score_attribution : List Finding → List ClusterHealth → Ledger
unfolding add_finding_terms add_cluster_health_terms add_version_skew_term add_worst_node_term
    parts_of_fleet
compute_score_attribution findings healths =
    let p = parts_of_fleet healths in
    add_worst_node_term p.fleet (find_worst no_worst healths) (
      add_version_skew_term (quarter p) healths (
        add_cluster_health_terms p healths
          (add_finding_terms (quarter p) findings (record { terms = []; entries = [] }))))
