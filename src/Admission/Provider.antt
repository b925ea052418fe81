-- ===== src/Admission/Provider.antt =====
-- The providers of a baseline: `Current`, `recompute`, `PinnedBaselineProvider` and `LoadBaselineFile` of
-- internal/admission/baseline.go.
-- Calls come one after another, each waiting for its own recompute. What the scan store answers is the
-- section's parameter.
use fleetsweeper.Common.{
  ℕ, ◌-◌, max, Bool, true, false, not, ◌&&◌, List, [], ◌∷◌, Option, none, some, String,
  if◌then◌else◌, ltb, leb, suc,
}
use fleetsweeper.Common.Integers.{ℤ, pos, negsuc, at_least, positive_part}
use fleetsweeper.Store.Time.{Time}
use fleetsweeper.Common.Floats.{Float, ratio, nan, infinity, minus_infinity}
use fleetsweeper.Admission.Norms.{
  Norm, Baseline, ClusterResults, sum_results, no_sums, norm_of, empty_baseline,
  default_stable_scans,
}

abbrev pub default_ttl : ℕ
default_ttl = 60_000_000_000

-- A lifetime not above zero is 60 seconds.
unfoldable pub ttl_of : ℤ → ℕ
ttl_of (pos n) = if leb n 0 then default_ttl else n
ttl_of (negsuc n) = default_ttl

pub record Provider : Type 0 where
  pub depth : ℤ
  pub ttl : ℕ
  pub cached : Baseline
  pub cached_at : Time

unfoldable pub new_provider : ℤ → Provider
unfolding ttl_of
new_provider ttl = record {
  depth = pos default_stable_scans;
  ttl = ttl_of ttl;
  cached = empty_baseline;
  cached_at = 0;
}

-- The two reads of the scan store. None is an error.
pub record ScanStore : Type 0 where
  pub list_scans : ℕ → Option (List String)
  pub get_scan_results : String → Option (List ClusterResults)

module _ (db : ScanStore) where
  unfoldable pub scan_baseline : String → Option Norm
  unfolding sum_results norm_of
  scan_baseline scan_id = elim (db.get_scan_results scan_id) [
    | none ↦ none
    | some results ↦ some (norm_of scan_id (sum_results results no_sums))
  ]

  -- The norms of some scans, unless a read of one fails.
  unfoldable pub scan_baselines : List String → Option (List Norm)
  unfolding scan_baseline
  scan_baselines [] = some []
  scan_baselines (i ∷ is) =
      let rest = scan_baselines is in
      elim (scan_baseline i) [
        | none ↦ none
        | some n ↦ elim rest [ none ↦ none | some ns ↦ some (n ∷ ns) ]
      ]

  unfoldable pub recompute : ℤ → Option Baseline
  unfolding scan_baselines
  recompute depth = elim (db.list_scans (max (positive_part depth) 1)) [
    | none ↦ none
    | some ids ↦ elim (scan_baselines ids) [
      | none ↦ none
      | some [] ↦ some empty_baseline
      | some (n ∷ ns) ↦ some (record { norm = n; previous = ns; pinned = false })
    ]
  ]

  unfoldable pub current : Time → Provider → Baseline × Provider
  unfolding recompute
  current now p =
      if ltb (now - p.cached_at) p.ttl then (p.cached, p) else elim (recompute p.depth) [
        | none ↦ (p.cached, record p { cached_at = now })
        | some b ↦ (b, record p { cached = b; cached_at = now })
      ]

unfoldable pub new_pinned_provider : Baseline → Baseline
new_pinned_provider b = record b { pinned = true; previous = [] }

-- `f.v >= 0 && f.v <= 1`
unfoldable pub in_unit : Float → Bool
in_unit (ratio (pos n) d) = leb n (suc d)
in_unit (ratio (negsuc n) d) = false
in_unit nan = false
in_unit infinity = false
in_unit minus_infinity = false

unfoldable pub all_in_unit : List Float → Bool
unfolding in_unit
all_in_unit [] = true
all_in_unit (f ∷ fs) = in_unit f && all_in_unit fs

-- The five fractions, in the order in which they are checked.
abbrev pub fractions : Norm → List Float
fractions n =
    n.digest_pin_fraction ∷ n.non_root_fraction ∷ n.no_privilege_escalation_fraction
    ∷ n.named_service_account_fraction ∷ n.read_only_root_fs_fraction ∷ []

-- From what the YAML decoder makes of the file's body.
unfoldable pub load_baseline_file : Option Norm → Option Baseline
unfolding all_in_unit
load_baseline_file none = none
load_baseline_file (some n) =
    if not (at_least 0 n.sample_pods && at_least 0 n.sample_containers)
    then none
    else if all_in_unit (fractions n)
    then some (record { norm = n; previous = []; pinned = false })
    else none
