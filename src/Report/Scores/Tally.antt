-- ===== src/Report/Scores/Tally.antt =====
-- The places of findings and marks in a cluster, counted by severity.
use fleetsweeper.Common.{
  ℕ, ◌+◌, map, ◌&&◌, eq_iff, ◌≡◌, true, false, List, [], ◌∷◌, String, if◌then◌else◌, ◌==◌,
  string_eq, arith, refl,
}
use fleetsweeper.Report.{Finding, ClusterMark}
use fleetsweeper.Report.Scores.{
  SeverityCounts, count_severity, count_marks, count_finding, count_findings,
}

-- Where a finding stands with which severity: at its own cluster, and at the cluster of each mark.
abbrev pub places : Finding → List (String × String)
places f = (f.cluster, f.severity) ∷ map (λ m. (m.cluster, m.severity)) f.marks

-- How many of the places are in a cluster with a severity.
abbrev pub number_in : String → String → List (String × String) → ℕ
number_in cluster severity [] = 0
number_in cluster severity ((c, s) ∷ ps) =
    (if c == cluster && s == severity then 1 else 0) + number_in cluster severity ps

abbrev pub number_of : String → String → List Finding → ℕ
number_of cluster severity [] = 0
number_of cluster severity (f ∷ fs) =
    number_in cluster severity (places f) + number_of cluster severity fs

-- The counts of one state are so much above those of another.
pub record Adds (a : SeverityCounts) (criticals warnings : ℕ) (b : SeverityCounts) : Type 0 where
  pub more_critical : b.critical ≡ a.critical + criticals
  pub more_warning : b.warning ≡ a.warning + warnings

not_both : (s : String) → s == "critical" ≡ true → s == "warning" ≡ false
not_both s t = rw ((eq_iff s "critical").0 t) refl

place-Adds :
    (cluster c s : String) (a : SeverityCounts)
    → Adds a
        (if c == cluster && s == "critical" then 1 else 0)
        (if c == cluster && s == "warning" then 1 else 0)
        (if c == cluster then count_severity s a else a)
unfolding count_severity
place-Adds cluster c s a = record {
  more_critical = ground arith;
  more_warning = ground (arith, not_both s);
}

count_marks-Adds :
    (cluster : String) (ms : List ClusterMark) (a : SeverityCounts)
    → Adds a
        (number_in cluster "critical" (map (λ m. (m.cluster, m.severity)) ms))
        (number_in cluster "warning" (map (λ m. (m.cluster, m.severity)) ms))
        (count_marks cluster ms a)
unfolding count_marks
count_marks-Adds cluster [] a = record { more_critical = omega arith; more_warning = omega arith }
count_marks-Adds cluster (m ∷ ms) a =
    let a' = if m.cluster == cluster then count_severity m.severity a else a in
    let p = place-Adds cluster m.cluster m.severity a in
    let q = count_marks-Adds cluster ms a' in
    record {
      more_critical = omega (arith, p.more_critical, q.more_critical);
      more_warning = omega (arith, p.more_warning, q.more_warning);
    }

pub count_findings-Adds :
    (cluster : String) (fs : List Finding) (a : SeverityCounts)
    → Adds a
        (number_of cluster "critical" fs)
        (number_of cluster "warning" fs)
        (count_findings cluster fs a)
unfolding count_findings count_finding
count_findings-Adds cluster [] a = record {
  more_critical = omega arith;
  more_warning = omega arith;
}
count_findings-Adds cluster (f ∷ fs) a =
    let own = if f.cluster == cluster then count_severity f.severity a else a in
    let p = place-Adds cluster f.cluster f.severity a in
    let q = count_marks-Adds cluster f.marks own in
    let r = count_findings-Adds cluster fs (count_marks cluster f.marks own) in
    record {
      more_critical = omega (arith, p.more_critical, q.more_critical, r.more_critical);
      more_warning = omega (arith, p.more_warning, q.more_warning, r.more_warning);
    }
