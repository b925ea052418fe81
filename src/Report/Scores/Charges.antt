-- ===== src/Report/Scores/Charges.antt =====
-- What the findings in a cluster do to its score: internal/report/cluster_score.go.
use fleetsweeper.Common.{
  ℕ, ap, ◌∙◌, ◌+◌, ◌≢◌, ◌⊎◌, inl, inr, Bool-cases, eqb, ◌-◌, ◌*◌, suc, min, ◌≤◌, ◌<◌, ◌≡◌, List,
  ◌∷◌, String, leb, string_eq, arith, ◌++◌,
}
use fleetsweeper.Common.Floats.{Float}
use native.Mathlib.Nat.{le-div_iff_mul-le, le_refl, mul-le-mul_right}
use fleetsweeper.Report.{Finding}
use fleetsweeper.Report.Scores.{
  no_severities, cluster_severity_counts, status_cost, load_cost, cluster_charges, ClusterHealth,
  cluster_cost, cluster_points, parts_of, round_parts, compute_cluster_score,
}
use fleetsweeper.Report.Scores.Monotone.{
  charges-Below, round_parts_mono, cluster_cost_mono, parts_of-positive,
}
use fleetsweeper.Report.Scores.Tally.{number_of, count_findings-Adds}

le_cases : (q k : ℕ) → (q ≤ k) ⊎ (suc k ≤ q)
le_cases q k = elim (Bool-cases (leb q k)) [
  | inl e ↦ inl (ground arith)
  | inr e ↦ inr (ground arith)
]

round_parts-whole : (k p : ℕ) → 1 ≤ p → round_parts (k * p) p ≡ k
unfolding round_parts
round_parts-whole k p h =
    let positive : 0 < 2 * p = omega (arith, h) in
    let q = round_parts (k * p) p in
    let low : k ≤ q = (le-div_iff_mul-le positive).1 (omega arith) in
    let fits : q * (2 * p) ≤ 2 * (k * p) + p = (le-div_iff_mul-le positive).0 (le_refl q) in
    elim (le_cases q k) [
      | inl le ↦ omega (arith, low, le)
      | inr lt ↦
          let more : suc k * (2 * p) ≤ q * (2 * p) = mul-le-mul_right (2 * p) lt in
          absurd (omega (arith, more, fits, h))
    ]

status_cost_bound : (s : String) → status_cost s ≤ 20
unfolding status_cost
status_cost_bound s = ground arith

load_cost_bound : (f : Float) → load_cost f ≤ 5
unfolding load_cost
load_cost_bound f = ground arith

points_bound : (h : ClusterHealth) (c w : ℕ) → cluster_points h (c, w) ≤ 94
unfolding cluster_points
points_bound h c w =
    omega
      (arith, status_cost_bound h.status, load_cost_bound h.avg_cpu, load_cost_bound h.avg_memory)

whole_cost :
    (h : ClusterHealth) (c w : ℕ)
    → h.healthy_nodes ≡ h.node_count
    → 100 * parts_of h - cluster_cost h (c, w) ≡ (100 - cluster_points h (c, w)) * parts_of h
unfolding cluster_cost
whole_cost h c w e =
    let k = 100 - cluster_points h (c, w) in
    let sum : k + cluster_points h (c, w) ≡ 100 = omega (arith, points_bound h c w) in
    let parts : (k + cluster_points h (c, w)) * parts_of h ≡ 100 * parts_of h =
      ap (λ n. n * parts_of h) sum in
    omega (arith, parts, e)

score_exactly :
    (h : ClusterHealth) (fs : List Finding)
    → h.healthy_nodes ≡ h.node_count
    → (compute_cluster_score h fs).score
        + min (8 * number_of h.name "critical" fs) 40
        + min (2 * number_of h.name "warning" fs) 24
        + status_cost h.status
        + load_cost h.avg_cpu
        + load_cost h.avg_memory
      ≡ 100
unfolding compute_cluster_score cluster_charges cluster_severity_counts cluster_points
score_exactly h fs e =
    let a = cluster_severity_counts h.name fs in
    let adds = count_findings-Adds h.name fs no_severities in
    let score =
      ap (λ n. round_parts n (parts_of h)) (whole_cost h a.critical a.warning e)
      ∙ round_parts-whole (100 - cluster_points h (a.critical, a.warning)) (parts_of h)
          (parts_of-positive h) in
    omega (arith, score, adds.more_critical, adds.more_warning, points_bound h a.critical a.warning)

score_antitone :
    (h : ClusterHealth) (before after : List Finding) (f : Finding)
    → (compute_cluster_score h (before ++ (f ∷ after))).score
      ≤ (compute_cluster_score h (before ++ after)).score
unfolding compute_cluster_score cluster_charges
score_antitone h before after f =
    let a = cluster_severity_counts h.name (before ++ after) in
    let b = cluster_severity_counts h.name (before ++ (f ∷ after)) in
    let below = charges-Below h.name before after f in
    let cost =
      cluster_cost_mono h a.critical a.warning b.critical b.warning below.criticals
        below.warnings in
    round_parts_mono (100 * parts_of h - cluster_cost h (b.critical, b.warning))
      (100 * parts_of h - cluster_cost h (a.critical, a.warning)) (parts_of h) (parts_of-positive h)
      (omega (arith, cost))

-- One more finding anywhere in the report never makes a cluster's score better. Where every node of the
-- cluster is healthy, the score and what is charged for it make exactly 100: eight for each critical place
-- of a finding or a mark in the cluster, up to 40, two for each warning place, up to 24, and what the
-- cluster's status, processor and memory cost.
pub compute_cluster_score-antitone :
    (h : ClusterHealth) (before after : List Finding) (f : Finding)
    → ((compute_cluster_score h (before ++ (f ∷ after))).score
        ≤ (compute_cluster_score h (before ++ after)).score)
      × ((h.healthy_nodes ≢ h.node_count)
          ⊎ ((compute_cluster_score h (before ++ (f ∷ after))).score
                + min (8 * number_of h.name "critical" (before ++ (f ∷ after))) 40
                + min (2 * number_of h.name "warning" (before ++ (f ∷ after))) 24
                + status_cost h.status
                + load_cost h.avg_cpu
                + load_cost h.avg_memory
              ≡ 100))
compute_cluster_score-antitone h before after f = (
  score_antitone h before after f,
  elim (Bool-cases (eqb h.healthy_nodes h.node_count)) [
    | inl e ↦ inr (score_exactly h (before ++ (f ∷ after)) (ground arith))
    | inr e ↦ inl (λ same. ground arith)
  ],
)
