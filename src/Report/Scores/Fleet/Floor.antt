-- ===== src/Report/Scores/Fleet/Floor.antt =====
-- What findings alone can cost a fleet.
use fleetsweeper.Common.{
  ℕ, ◌+◌, ◌-◌, ◌*◌, ◌≤◌, ◌<◌, ◌≡◌, Bool, false, List, [], ◌∷◌, ◌++◌, String, ltb, eqb, ◌==◌,
  string_eq, length, arith, All, refl, Bool-cases, inl, inr,
}
use native.Mathlib.Nat.{le-div_iff_mul-le}
use fleetsweeper.Report.{Finding}
use fleetsweeper.Report.Scores.{ClusterHealth, round_parts}
use fleetsweeper.Report.Scores.Ledger.{
  Term, ScoreTerm, ScoreEntry, Ledger, Parts, quarter, parts_of_fleet, compute_score_attribution,
  add_term, capped, raw_sum, add_severity, add_finding_terms, add_cluster_health_terms,
  cluster_entries, add_version_skew_term, add_worst_node_term, find_worst, no_worst, versions_of,
  version_skew_severity, is_critical, is_degraded, critical_clusters, degraded_clusters,
  critical_findings, warning_findings, info_findings, tally_findings, finding_entries, count_of,
}
use fleetsweeper.Report.Scores.Fleet.{fleet_points, total_cost}

total_cost-append : (ts us : List ScoreTerm) → total_cost (ts ++ us) ≡ total_cost ts + total_cost us
unfolding total_cost
total_cost-append [] us = omega arith
total_cost-append (t ∷ ts) us = omega (arith, total_cost-append ts us)

-- A capped term adds at most its limit.
add_term-total :
    (term : Term) (count limit : ℕ) (es : List ScoreEntry) (a : Ledger)
    → 1 ≤ limit
    → total_cost (add_term term count limit es a).terms ≤ total_cost a.terms + limit
unfolding add_term capped total_cost
add_term-total term count limit es a h = elim (Bool-cases (eqb (raw_sum es) 0)) [
  | inl z ↦ rw (add_term, z) (omega arith)
  | inr z ↦
      rw
        (
          add_term,
          z,
          total_cost-append a.terms (
              record {
                term = term;
                count = count;
                raw = raw_sum es;
                cost = capped limit (raw_sum es);
              }
              ∷ []),
        )
        (ground (arith, h))
]

add_term-none : (term : Term) (count limit : ℕ) (a : Ledger) → add_term term count limit [] a ≡ a
unfolding add_term raw_sum
add_term-none term count limit a = refl

-- A cluster that costs nothing of its own.
abbrev pub Quiet : ClusterHealth → Type 0
Quiet h =
    (is_critical h.status ≡ false)
    × (is_degraded h.status ≡ false)
    × (h.node_count ≤ h.healthy_nodes)

cluster_entries-none :
    (term : Term) (test : String → Bool) (raw : ℕ) (hs : List ClusterHealth)
    → All (λ h. test h.status ≡ false) hs
    → cluster_entries term test raw hs ≡ []
unfolding cluster_entries
cluster_entries-none term test raw [] a = refl
cluster_entries-none term test raw (h ∷ hs) a =
    rw (a.0, cluster_entries-none term test raw hs a.1) refl

find_worst-Quiet : (hs : List ClusterHealth) → All Quiet hs → find_worst no_worst hs ≡ no_worst
unfolding find_worst
find_worst-Quiet [] a = refl
find_worst-Quiet (h ∷ hs) a =
    let none_down : h.node_count - h.healthy_nodes ≡ 0 = omega (arith, a.0.2) in
    let no_worse : ltb (0 * h.node_count) 0 ≡ false = ground arith in
    rw (none_down, no_worse) (find_worst-Quiet hs a.1)

All-of {ℓ κ μ} :
    {A : Type ℓ} (P : A → Type κ) (Q : A → Type μ) (xs : List A)
    → ((x : A) → P x → Q x)
    → All P xs
    → All Q xs
All-of P Q [] f a = tt
All-of P Q (x ∷ xs) f a = (f x a.0, All-of P Q xs f a.1)

abbrev start : Ledger
start = record { terms = []; entries = [] }

module _ (healths : List ClusterHealth) (quiet : All Quiet healths)
    (level : version_skew_severity (versions_of healths) ≡ "info") where
  add_cluster_health_terms-Quiet :
      (p : Parts) (a : Ledger) → add_cluster_health_terms p healths a ≡ a
  unfolding add_cluster_health_terms
  add_cluster_health_terms-Quiet p a =
      rw
        (
          cluster_entries-none critical_clusters is_critical (80 * p.nodes) healths
              (All-of Quiet (λ h. is_critical h.status ≡ false) healths (λ h q. q.0) quiet),
          cluster_entries-none degraded_clusters is_degraded (40 * p.nodes) healths
              (All-of Quiet (λ h. is_degraded h.status ≡ false) healths (λ h q. q.1) quiet),
          add_term-none critical_clusters 0 0 a,
          add_term-none degraded_clusters 0 0 a,
        )
        refl

  add_version_skew_term-none : (q : ℕ) (a : Ledger) → add_version_skew_term q healths a ≡ a
  unfolding add_version_skew_term
  add_version_skew_term-none q a = elim (Bool-cases (ltb (length healths) 2)) [
    | inl t ↦ rw (add_version_skew_term, t) refl
    | inr f ↦ rw (add_version_skew_term, f, level) refl
  ]

  ledger-Quiet :
      (findings : List Finding)
      → compute_score_attribution findings healths
        ≡ add_finding_terms
            (quarter (parts_of_fleet healths))
            findings
            (record { terms = []; entries = [] })
  unfolding compute_score_attribution add_worst_node_term
  ledger-Quiet findings =
      let p = parts_of_fleet healths in
      let a = add_finding_terms (quarter p) findings start in
      rw
        (
          add_cluster_health_terms-Quiet p a,
          add_version_skew_term-none (quarter p) a,
          find_worst-Quiet healths quiet,
        )
        refl

module _ (q : ℕ) (findings : List Finding) where
  add_severity-total :
      (term : Term) (severity : String) (per limit : ℕ) (a : Ledger)
      → 1 ≤ limit
      → total_cost (add_severity term severity per limit findings a).terms
        ≤ total_cost a.terms + limit
  unfolding add_severity
  add_severity-total term severity per limit a h =
      add_term-total term (count_of severity findings) limit
        (finding_entries term per (tally_findings severity findings [])) a h

  after_critical : Ledger
  after_critical = add_severity critical_findings "critical" (24 * q) (144 * q) findings start

  after_warning : Ledger
  after_warning = add_severity warning_findings "warning" (6 * q) (96 * q) findings after_critical

  add_finding_terms-total :
      1 ≤ q
      → total_cost (add_finding_terms q findings start).terms
        ≤ total_cost after_critical.terms + 116 * q
  unfolding add_finding_terms after_critical after_warning
  add_finding_terms-total positive =
      let w =
        add_severity-total warning_findings "warning" (6 * q) (96 * q) after_critical
          (omega (arith, positive)) in
      let i =
        add_severity-total info_findings "info" q (20 * q) after_warning
          (omega (arith, positive)) in
      omega (arith, w, i)

tally_findings-none :
    (severity : String) (fs : List Finding)
    → All (λ f. f.severity == severity ≡ false) fs
    → tally_findings severity fs [] ≡ []
unfolding tally_findings
tally_findings-none severity [] h = refl
tally_findings-none severity (f ∷ fs) h = rw h.0 (tally_findings-none severity fs h.1)

round_parts-ge : (k num p : ℕ) → 1 ≤ p → k * p ≤ num → k ≤ round_parts num p
unfolding round_parts
round_parts-ge k num p h le =
    let positive : 0 < 2 * p = omega (arith, h) in
    (le-div_iff_mul-le positive).1 (omega (arith, le))

quarter-Quiet :
    (healths : List ClusterHealth) → All Quiet healths → 1 ≤ quarter (parts_of_fleet healths)
unfolding parts_of_fleet
quarter-Quiet healths quiet = rw (find_worst-Quiet healths quiet) (ground arith)

after_critical-le :
    (q : ℕ) (findings : List Finding)
    → 1 ≤ q
    → (total_cost (after_critical q findings).terms ≤ 144 * q)
      × (All (λ f. f.severity == "critical" ≡ false) findings
          → total_cost (after_critical q findings).terms ≡ 0)
unfolding after_critical add_severity finding_entries total_cost
after_critical-le q findings h =
    let most =
      add_severity-total q findings critical_findings "critical" (24 * q) (144 * q) start
        (omega (arith, h)) in
    (omega (arith, most), λ all. rw (tally_findings-none "critical" findings all) refl)

-- In a fleet with no critical, degraded or strained cluster, no unhealthy node and versions within patches of
-- each other, no findings, however many, take the score below 35, and none take it below 71 unless one of
-- them is critical.
pub fleet_points-Quiet :
    (findings : List Finding) (healths : List ClusterHealth)
    → All Quiet healths
    → version_skew_severity (versions_of healths) ≡ "info"
    → (35 ≤ fleet_points findings healths)
      × (All (λ f. f.severity == "critical" ≡ false) findings → 71 ≤ fleet_points findings healths)
unfolding fleet_points
fleet_points-Quiet findings healths quiet level =
    let p = parts_of_fleet healths in
    let q = quarter p in
    let positive = quarter-Quiet healths quiet in
    let cost : total_cost (compute_score_attribution findings healths).terms
        ≤ total_cost (after_critical q findings).terms + 116 * q =
      rw (ledger-Quiet healths quiet level findings)
        (add_finding_terms-total q findings positive) in
    let crit = after_critical-le q findings positive in
    let num = 100 * (4 * q) - total_cost (compute_score_attribution findings healths).terms in
    (
      round_parts-ge 35 num (4 * q) (omega (arith, positive)) (omega (arith, cost, crit.0)),
      λ all.
          round_parts-ge 71 num (4 * q) (omega (arith, positive)) (omega (arith, cost, crit.1 all)),
    )
