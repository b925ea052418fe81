-- ===== src/Admission/Examples.antt =====
-- Runs of the admission webhook.
use fleetsweeper.Common.{
  arith, ℕ, suc, ◌≡◌, ◌↔◌, refl, Bool, true, false, List, [], ◌∷◌, Option, none, some, String, All,
  AnyOf, ltb,
}
use fleetsweeper.Common.Integers.{pos}
use fleetsweeper.PodSecurity.{
  Pod, Container, SecurityContext, runtime_default, root_status, allows_privilege_escalation,
  read_only_root_fs, gains_privileges, to_upper,
}
use fleetsweeper.Common.Floats.{ratio}
use fleetsweeper.Admission.Norms.{
  Norm, Baseline, ClusterResults, WorkloadSec, ImageAudit, sum_results, no_sums, norm_of,
  sufficient, below_threshold,
}
use fleetsweeper.Admission.Checks.{
  default_checks, admitted_containers, container_evaluate, account_evaluate,
}
use fleetsweeper.Admission.Provider.{load_baseline_file}
use fleetsweeper.Admission.{
  Handler, AdmissionRequest, new_handler, evaluate_decision, decode_pod, run_checks, enforce,
  dry_run, allowed, enforcing, held_scans, held_from, conclude,
}
use fleetsweeper.Admission.Denial.{Enforced, evaluate_decision-denied}
use fleetsweeper.Admission.Settings.{Compliant}
use fleetsweeper.Admission.Compliant.{evaluate_decision-Compliant}
use fleetsweeper.Admission.Bounds.{load_baseline_file-norm_of}

abbrev locked_down : SecurityContext
locked_down = record {
  run_as_non_root = some true;
  run_as_user = some (pos 1000);
  allow_privilege_escalation = some false;
  privileged = none;
  read_only_root_filesystem = some true;
  capabilities = none;
  seccomp_profile = some runtime_default;
}

abbrev app : String → SecurityContext → Container
app image s = record { name = "app"; image = image; security_context = some s }

abbrev pod_of : Container → Pod
pod_of c = record {
  annotations = [];
  service_account_name = "shop";
  security_context = none;
  init_containers = [];
  containers = c ∷ [];
  ephemeral_containers = [];
}

abbrev good_pod : Pod
good_pod = pod_of (app "shop@sha256:0a" locked_down)

abbrev writable_pod : Pod
writable_pod =
    pod_of (app "shop@sha256:0a" (record locked_down { read_only_root_filesystem = none }))

abbrev strict : Norm
strict = record {
  sample_pods = pos 20;
  sample_containers = pos 40;
  digest_pin_fraction = ratio (pos 39) 39;
  non_root_fraction = ratio (pos 38) 39;
  no_privilege_escalation_fraction = ratio (pos 38) 39;
  named_service_account_fraction = ratio (pos 20) 19;
  read_only_root_fs_fraction = ratio (pos 28) 39;
  source_scan_id = "s3";
}

abbrev stable : Baseline
stable = record { norm = strict; previous = strict ∷ strict ∷ []; pinned = false }

abbrev asked : Pod → AdmissionRequest
asked pod = record { uid = "u1"; kind = "Pod"; object = some pod }

evaluate_decision-denied_example :
    ((evaluate_decision
        (new_handler default_checks "enforce")
        stable
        (asked writable_pod)).response.allowed
      ≡ false)
    ↔ ((pod : Pod) × (decode_pod (asked writable_pod) ≡ some pod)
        × (sufficient stable.norm ≡ true)
        × (dry_run pod ≡ false)
        × AnyOf (Enforced (new_handler default_checks "enforce") pod stable) default_checks)
evaluate_decision-denied_example =
    evaluate_decision-denied (new_handler default_checks "enforce") stable (asked writable_pod)

denies_writable :
    (evaluate_decision
      (new_handler default_checks "enforce")
      stable
      (asked writable_pod)).response.allowed
    ≡ false
unfolding evaluate_decision decode_pod sufficient run_checks conclude container_evaluate
    account_evaluate admitted_containers root_status allows_privilege_escalation read_only_root_fs
    fleetsweeper.Common.Map.lookup
denies_writable = refl

-- Two earlier scans are too few, and so is a mode that is spelled otherwise.
allows_unstable :
    (evaluate_decision
      (new_handler default_checks "enforce")
      (record stable { previous = strict ∷ [] })
      (asked writable_pod)).response.allowed
    ≡ true
unfolding evaluate_decision decode_pod sufficient run_checks conclude container_evaluate
    account_evaluate admitted_containers root_status allows_privilege_escalation read_only_root_fs
allows_unstable = refl

evaluate_decision-Compliant_example :
    (evaluate_decision (new_handler default_checks "enforce") stable (asked good_pod) ≡ record {
      response = record { uid = "u1"; allowed = true; message = []; warnings = [] };
      decision = allowed;
      failures = [];
    })
    × Compliant good_pod stable.norm
unfolding evaluate_decision decode_pod sufficient run_checks conclude container_evaluate
    account_evaluate admitted_containers root_status allows_privilege_escalation read_only_root_fs
evaluate_decision-Compliant_example =
    evaluate_decision-Compliant (new_handler default_checks "enforce") stable (asked good_pod)
      good_pod refl refl refl refl

abbrev counted : ClusterResults
counted = record {
  image_audit = some (record {
    state_ok = true;
    data_decoded = some (record { total_containers = pos 12; no_digest = pos 15 });
  });
  workload_security = some (record {
    state_ok = true;
    data_decoded = some (record {
      total_pods = pos 6;
      baseline_containers = pos 10;
      run_as_non_root_containers = pos 11;
      allow_privilege_escalation = pos 3;
      no_read_only_root = pos 12;
      default_service_account_pods = pos 7;
    });
  });
}

load_baseline_file-norm_of_example :
    let n = norm_of "s1" (sum_results (counted ∷ counted ∷ []) no_sums) in
    load_baseline_file (some n) ≡ some (record { norm = n; previous = []; pinned = false })
unfolding fleetsweeper.Admission.Norms.tally_workload_sec
    fleetsweeper.Admission.Norms.tally_image_audit
load_baseline_file-norm_of_example =
    load_baseline_file-norm_of "s1" (counted ∷ counted ∷ []) (omega arith)
      ((omega arith, omega arith), ((omega arith, omega arith), tt))

-- A container that asks for CAP_ALL in small letters can gain privileges, whatever its setting.
gains_lower_case : gains_privileges (b'c' ∷ b'a' ∷ b'p' ∷ b'_' ∷ b'a' ∷ b'l' ∷ b'l' ∷ []) ≡ true
unfolding gains_privileges to_upper fleetsweeper.Common.list_beq
gains_lower_case = refl
