-- ===== src/Report/Scores/Fleet.antt =====
-- The fleet's score from its ledger: scoreWithAttribution of internal/report/score.go, and Drivers of
-- internal/report/score_attribution.go.
pub mod Floor
use fleetsweeper.Common.{
  ℕ, zero, suc, ◌+◌, ◌-◌, ◌*◌, Bool, true, false, List, [], ◌∷◌, Option, none, some, String,
  if◌then◌else◌, ltb, leb, map, length,
}
use fleetsweeper.Report.{Finding}
use fleetsweeper.Report.Scores.{ClusterHealth, round_parts, grade_of}
use fleetsweeper.Report.Coverage.{
  FleetCoverage, CoverageSentence, fleet_coverage, clears_floor, coverage_sentence,
  score_provenance, Report,
}
use fleetsweeper.Report.Scores.Ledger.{
  Term, ScoreTerm, Parts, quarter, parts_of_fleet, compute_score_attribution,
}

unfoldable pub total_cost : List ScoreTerm → ℕ
total_cost [] = 0
total_cost (t ∷ ts) = t.cost + total_cost ts

abbrev pub insert_driver : Term × ℕ → List (Term × ℕ) → List (Term × ℕ)
insert_driver d [] = d ∷ []
insert_driver d (e ∷ es) =
    let below = insert_driver d es in if ltb e.1 d.1 then d ∷ e ∷ es else e ∷ below

abbrev pub sort_drivers : List (Term × ℕ) → List (Term × ℕ) → List (Term × ℕ)
sort_drivers [] sorted = sorted
sort_drivers (d ∷ ds) sorted = sort_drivers ds (insert_driver d sorted)

abbrev pub take {ℓ} : {A : Type ℓ} → ℕ → List A → List A
take zero xs = []
take (suc n) [] = []
take (suc n) (x ∷ xs) = x ∷ take n xs

-- The three terms of greatest impact, in term order where impacts are equal.
unfoldable pub drivers : Parts → List ScoreTerm → List (Term × ℕ)
unfolding round_parts
drivers p terms =
    take 3 (sort_drivers (map (λ t. (t.term, round_parts t.cost (4 * quarter p))) terms) [])

-- `math.Round(math.Max(100 - Total, 0))`
unfoldable pub fleet_points : List Finding → List ClusterHealth → ℕ
unfolding compute_score_attribution total_cost round_parts parts_of_fleet
fleet_points findings healths =
    let parts = 4 * quarter (parts_of_fleet healths) in
    round_parts (100 * parts - total_cost (compute_score_attribution findings healths).terms) parts

pub data Headline : Type 0 where
  not_enough_data : Option CoverageSentence → ℕ → Headline
  nothing_flagged no_drift light_drift real_drift significant_drift degraded_health :
      ℕ → Option CoverageSentence → Headline

-- The band's text names the clusters, and the sentence follows it.
unfoldable pub score_band : ℕ → ℕ → Option CoverageSentence → Headline
score_band score clusters none =
    if leb 95 score
    then no_drift clusters none
    else if leb 85 score
    then light_drift clusters none
    else if leb 70 score
    then real_drift clusters none
    else if leb 50 score
    then significant_drift clusters none
    else degraded_health clusters none
score_band score clusters (some s) =
    if leb 95 score
    then nothing_flagged clusters (some s)
    else if leb 85 score
    then light_drift clusters (some s)
    else if leb 70 score
    then real_drift clusters (some s)
    else if leb 50 score
    then significant_drift clusters (some s)
    else degraded_health clusters (some s)

pub record FleetScore : Type 0 where
  pub score : ℕ
  pub grade : String
  pub graded : Bool
  pub coverage : FleetCoverage
  pub headline : Headline
  pub drivers : List (Term × ℕ)
  pub provenance : ℕ × ℕ × ℕ

unfoldable pub fleet_score : Report → List Finding → List ClusterHealth → FleetScore
unfolding fleet_points drivers score_band fleet_coverage clears_floor coverage_sentence grade_of
    score_provenance parts_of_fleet compute_score_attribution
fleet_score r findings healths =
    let score = fleet_points findings healths in
    let cov = fleet_coverage r in
    let graded = clears_floor cov in
    let sentence = coverage_sentence cov (length r.clusters) in
    record {
      score = score;
      grade = if graded then grade_of score else "";
      graded = graded;
      coverage = cov;
      headline =
          if graded
          then score_band score (length r.clusters) sentence
          else not_enough_data sentence score;
      drivers = drivers (parts_of_fleet healths) (compute_score_attribution findings healths).terms;
      provenance = score_provenance r;
    }
