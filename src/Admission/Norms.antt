-- ===== src/Admission/Norms.antt =====
-- The fleet's norm and where it comes from: internal/admission/types.go and baseline.go.
-- Of the store's answers stands here what the provider decodes from them. A count is a number of 64 bits, and
-- sums of counts wrap around. A quotient of counts is exact where the program rounds it to a float64.
use fleetsweeper.Common.{
  ℕ, suc, ◌*◌, min, Bool, true, false, ◌&&◌, List, [], ◌∷◌, Option, none, some, String,
  if◌then◌else◌, ltb, eqb,
}
use fleetsweeper.Common.Integers.{ℤ, pos, negsuc, ◌+ℤ◌, ◌-ℤ◌, int64, at_least, positive_part}
use fleetsweeper.Common.Floats.{Float, ratio, nan, infinity, minus_infinity}

-- One scan's norm.
pub record Norm : Type 0 where
  pub sample_pods : ℤ
  pub sample_containers : ℤ
  pub digest_pin_fraction : Float
  pub non_root_fraction : Float
  pub no_privilege_escalation_fraction : Float
  pub named_service_account_fraction : Float
  pub read_only_root_fs_fraction : Float
  pub source_scan_id : String

-- The latest norm with those before it, newest first.
pub record Baseline : Type 0 where
  pub norm : Norm
  pub previous : List Norm
  pub pinned : Bool

abbrev pub min_sample_containers : ℕ
min_sample_containers = 30

abbrev pub min_sample_pods : ℕ
min_sample_pods = 10

abbrev pub default_stable_scans : ℕ
default_stable_scans = 3

unfoldable pub sufficient : Norm → Bool
sufficient n =
    at_least min_sample_containers n.sample_containers && at_least min_sample_pods n.sample_pods

-- `f < Threshold`, with Threshold at 0.70.
unfoldable pub below_threshold : Float → Bool
below_threshold (ratio (pos n) d) = ltb (100 * n) (70 * suc d)
below_threshold (ratio (negsuc n) d) = true
below_threshold nan = false
below_threshold infinity = false
below_threshold minus_infinity = true

unfoldable pub float_ratio : ℤ → ℤ → Float
float_ratio (pos n) (pos (suc d)) = if ltb (suc d) n then ratio (pos 1) 0 else ratio (pos n) d
float_ratio n d = ratio (pos 0) 0

pub record ImageAudit : Type 0 where
  pub total_containers : ℤ
  pub no_digest : ℤ

pub record WorkloadSec : Type 0 where
  pub total_pods : ℤ
  pub baseline_containers : ℤ
  pub run_as_non_root_containers : ℤ
  pub allow_privilege_escalation : ℤ
  pub no_read_only_root : ℤ
  pub default_service_account_pods : ℤ

-- One scanner's result: is its state OK, and what its data decodes to.
pub record ScannerResult (A : Type 0) : Type 0 where
  pub state_ok : Bool
  pub data_decoded : Option A

pub record ClusterResults : Type 0 where
  pub image_audit : Option (ScannerResult ImageAudit)
  pub workload_security : Option (ScannerResult WorkloadSec)

-- All containers, and those pinned by digest.
unfoldable pub tally_image_audit : Option ImageAudit → ℤ × ℤ
unfolding ◌-ℤ◌ int64
tally_image_audit none = (pos 0, pos 0)
tally_image_audit (some m) =
    if at_least 1 m.total_containers
    then (m.total_containers, int64 (m.total_containers -ℤ m.no_digest))
    else (pos 0, pos 0)

abbrev pub no_counts : WorkloadSec
no_counts = record {
  total_pods = pos 0;
  baseline_containers = pos 0;
  run_as_non_root_containers = pos 0;
  allow_privilege_escalation = pos 0;
  no_read_only_root = pos 0;
  default_service_account_pods = pos 0;
}

unfoldable pub tally_workload_sec : Option WorkloadSec → WorkloadSec
tally_workload_sec none = no_counts
tally_workload_sec (some m) = m

-- The running sums of `scanBaseline`.
pub record Sums : Type 0 where
  pub total_containers : ℤ
  pub with_digest : ℤ
  pub ws_containers : ℤ
  pub non_root : ℤ
  pub no_priv_esc : ℤ
  pub read_only : ℤ
  pub total_pods : ℤ
  pub default_sa_pods : ℤ

abbrev pub no_sums : Sums
no_sums = record {
  total_containers = pos 0;
  with_digest = pos 0;
  ws_containers = pos 0;
  non_root = pos 0;
  no_priv_esc = pos 0;
  read_only = pos 0;
  total_pods = pos 0;
  default_sa_pods = pos 0;
}

-- A result whose state is not OK adds nothing.
abbrev pub usable : {A : Type 0} → Option (ScannerResult A) → Option (Option A)
usable none = none
usable (some r) = if r.state_ok then some r.data_decoded else none

unfoldable pub add_image_audit : Option (ScannerResult ImageAudit) → Sums → Sums
unfolding tally_image_audit ◌+ℤ◌ int64
add_image_audit r s = elim (usable r) [
  | none ↦ s
  | some raw ↦
      let (c, d) = tally_image_audit raw in
      record s {
        total_containers = int64 (s.total_containers +ℤ c);
        with_digest = int64 (s.with_digest +ℤ d);
      }
]

-- `max(total-part, 0)`
abbrev pub left : ℤ → ℤ → ℤ
left total part = pos (positive_part (int64 (total -ℤ part)))

unfoldable pub add_workload_sec : Option (ScannerResult WorkloadSec) → Sums → Sums
unfolding tally_workload_sec ◌+ℤ◌ ◌-ℤ◌ int64
add_workload_sec r s = elim (usable r) [
  | none ↦ s
  | some raw ↦
      let t = tally_workload_sec raw in
      let s' = record s {
        total_pods = int64 (s.total_pods +ℤ t.total_pods);
        default_sa_pods = int64 (s.default_sa_pods +ℤ t.default_service_account_pods);
      } in
      let n = positive_part t.baseline_containers in
      if eqb n 0 then s' else record s' {
        ws_containers = int64 (s'.ws_containers +ℤ t.baseline_containers);
        non_root = int64 (s'.non_root +ℤ pos (min (positive_part t.run_as_non_root_containers) n));
        no_priv_esc =
            int64 (s'.no_priv_esc +ℤ left t.baseline_containers t.allow_privilege_escalation);
        read_only = int64 (s'.read_only +ℤ left t.baseline_containers t.no_read_only_root);
      }
]

unfoldable pub sum_results : List ClusterResults → Sums → Sums
unfolding add_image_audit add_workload_sec
sum_results [] s = s
sum_results (c ∷ cs) s =
    sum_results cs (add_workload_sec c.workload_security (add_image_audit c.image_audit s))

unfoldable pub norm_of : String → Sums → Norm
unfolding float_ratio ◌-ℤ◌ int64
norm_of scan_id s = record {
  sample_pods = s.total_pods;
  sample_containers = s.total_containers;
  digest_pin_fraction = float_ratio s.with_digest s.total_containers;
  non_root_fraction = float_ratio s.non_root s.ws_containers;
  no_privilege_escalation_fraction = float_ratio s.no_priv_esc s.ws_containers;
  named_service_account_fraction =
      float_ratio (int64 (s.total_pods -ℤ s.default_sa_pods)) s.total_pods;
  read_only_root_fs_fraction = float_ratio s.read_only s.ws_containers;
  source_scan_id = scan_id;
}

abbrev pub empty_norm : Norm
empty_norm = record {
  sample_pods = pos 0;
  sample_containers = pos 0;
  digest_pin_fraction = ratio (pos 0) 0;
  non_root_fraction = ratio (pos 0) 0;
  no_privilege_escalation_fraction = ratio (pos 0) 0;
  named_service_account_fraction = ratio (pos 0) 0;
  read_only_root_fs_fraction = ratio (pos 0) 0;
  source_scan_id = "";
}

abbrev pub empty_baseline : Baseline
empty_baseline = record { norm = empty_norm; previous = []; pinned = false }
