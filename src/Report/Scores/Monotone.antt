-- ===== src/Report/Scores/Monotone.antt =====
-- The order of counts of findings, of costs and of rounded shares: internal/report/cluster_score.go.
use fleetsweeper.Common.{
  ℕ, ◌*◌, ◌≤◌, ◌<◌, ◌≡◌, Bool, true, false, List, [], ◌∷◌, String, if◌then◌else◌, ◌==◌, string_eq,
  arith, refl, ◌++◌,
}
use native.Mathlib.Nat.{le-div_iff_mul-le, le_refl, le_trans, mul-le-mul_right}
use fleetsweeper.Report.{Finding, ClusterMark}
use fleetsweeper.Report.Scores.{
  SeverityCounts, count_severity, count_marks, count_finding, no_severities, count_findings,
  cluster_severity_counts, ClusterHealth, cluster_cost, cluster_points, parts_of, round_parts,
}

-- No count is lower in the second.
pub record Below (a b : SeverityCounts) : Type 0 where
  pub criticals : a.critical ≤ b.critical
  pub warnings : a.warning ≤ b.warning

-- A count of findings that keeps the order, and that lowers nothing.
record Grows (f : SeverityCounts → SeverityCounts) : Type 0 where
  keeps : (a b : SeverityCounts) → Below a b → Below (f a) (f b)
  raises : (a : SeverityCounts) → Below a (f a)

Below-trans : (a b c : SeverityCounts) → Below a b → Below b c → Below a c
Below-trans a b c h k = record {
  criticals = omega (arith, h.criticals, k.criticals);
  warnings = omega (arith, h.warnings, k.warnings);
}

count_severity-Grows : (s : String) → Grows (count_severity s)
unfolding count_severity
count_severity-Grows s = record {
  keeps = λ a b h. record {
    criticals = ground (arith, h.criticals);
    warnings = ground (arith, h.warnings);
  };
  raises = λ a. record { criticals = ground arith; warnings = ground arith };
}

Grows-same : Grows (λ c. c)
Grows-same = record {
  keeps = λ a b h. h;
  raises = λ a. record { criticals = ground arith; warnings = ground arith };
}

Grows-if :
    (t : Bool) (f : SeverityCounts → SeverityCounts) → Grows f → Grows (λ c. if t then f c else c)
Grows-if true f g = g
Grows-if false f g = Grows-same

Grows-after : (f g : SeverityCounts → SeverityCounts) → Grows f → Grows g → Grows (λ c. g (f c))
Grows-after f g h k = record {
  keeps = λ a b below. k.keeps (f a) (f b) (h.keeps a b below);
  raises = λ a. Below-trans a (f a) (g (f a)) (h.raises a) (k.raises (f a));
}

count_marks-Grows : (cluster : String) (ms : List ClusterMark) → Grows (count_marks cluster ms)
unfolding count_marks
count_marks-Grows cluster [] = Grows-same
count_marks-Grows cluster (m ∷ ms) =
    Grows-after (λ c. if m.cluster == cluster then count_severity m.severity c else c)
      (count_marks cluster ms)
      (Grows-if (m.cluster == cluster) (count_severity m.severity)
        (count_severity-Grows m.severity))
      (count_marks-Grows cluster ms)

count_finding-Grows : (cluster : String) (f : Finding) → Grows (count_finding cluster f)
unfolding count_finding
count_finding-Grows cluster f =
    Grows-after (λ c. if f.cluster == cluster then count_severity f.severity c else c)
      (count_marks cluster f.marks)
      (Grows-if (f.cluster == cluster) (count_severity f.severity)
        (count_severity-Grows f.severity))
      (count_marks-Grows cluster f.marks)

count_findings-Grows : (cluster : String) (fs : List Finding) → Grows (count_findings cluster fs)
unfolding count_findings
count_findings-Grows cluster [] = Grows-same
count_findings-Grows cluster (f ∷ fs) =
    Grows-after (count_finding cluster f) (count_findings cluster fs)
      (count_finding-Grows cluster f) (count_findings-Grows cluster fs)

count_findings-append :
    (cluster : String) (fs gs : List Finding) (c : SeverityCounts)
    → count_findings cluster (fs ++ gs) c ≡ count_findings cluster gs (count_findings cluster fs c)
unfolding count_findings
count_findings-append cluster [] gs c = refl
count_findings-append cluster (f ∷ fs) gs c =
    count_findings-append cluster fs gs (count_finding cluster f c)

-- An addition somewhere among the findings lowers no charge.
pub charges-Below :
    (cluster : String) (before after : List Finding) (f : Finding)
    → Below
        (cluster_severity_counts cluster (before ++ after))
        (cluster_severity_counts cluster (before ++ (f ∷ after)))
unfolding cluster_severity_counts count_findings
charges-Below cluster before after f =
    let c = count_findings cluster before no_severities in
    rw
      (
        count_findings-append cluster before after no_severities,
        count_findings-append cluster before (f ∷ after) no_severities,
      )
      ((count_findings-Grows cluster after).keeps c (count_finding cluster f c)
        ((count_finding-Grows cluster f).raises c))

pub round_parts_mono : (a b p : ℕ) → 1 ≤ p → a ≤ b → round_parts a p ≤ round_parts b p
unfolding round_parts
round_parts_mono a b p h le =
    let positive : 0 < 2 * p = omega (arith, h) in
    (le-div_iff_mul-le positive).1
      (le_trans ((le-div_iff_mul-le positive).0 (le_refl _)) (omega (arith, le)))

pub cluster_cost_mono :
    (h : ClusterHealth) (c w c' w' : ℕ)
    → c ≤ c'
    → w ≤ w'
    → cluster_cost h (c, w) ≤ cluster_cost h (c', w')
unfolding cluster_cost cluster_points
cluster_cost_mono h c w c' w' p q =
    let points : cluster_points h (c, w) ≤ cluster_points h (c', w') = ground (arith, p, q) in
    let parts = mul-le-mul_right (parts_of h) points in omega (arith, parts)

pub parts_of-positive : (h : ClusterHealth) → 1 ≤ parts_of h
unfolding parts_of
parts_of-positive h = ground arith
