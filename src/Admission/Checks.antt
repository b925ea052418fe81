-- ===== src/Admission/Checks.antt =====
-- The built-in checks of a pod against the fleet's norm: internal/admission/checks.go.
use text.Mathlib.Text.{find?}
use fleetsweeper.Common.{
  Bool, true, false, not, ◌||◌, List, [], ◌∷◌, Option, none, some, String, if◌then◌else◌, ◌==◌,
  string_eq, map, filter,
}
use fleetsweeper.PodSecurity.{
  Pod, Container, Status, non_root, root_status, allows_privilege_escalation, read_only_root_fs,
  all_containers,
}
use fleetsweeper.Common.Floats.{Float}
use fleetsweeper.Admission.Norms.{Norm, below_threshold}

-- The check that speaks, the fleet's share that it quotes, and the containers that it names.
pub data Message : Type 0 where
  deviates : String → Float → List (String × Option String) → Message

-- The interface `Check`. A check that denies gives the message.
pub record Check : Type 0 where
  pub name : String
  pub evaluate : Pod → Norm → List Message × Option Message

unfoldable pub admitted_containers : Pod → List Container
unfolding all_containers
admitted_containers pod = all_containers (some pod) false

abbrev pub report_on :
    String → Float → List (String × Option String) → List Message × Option Message
report_on name share [] = ([], none)
report_on name share (o ∷ os) = let m = deviates name share (o ∷ os) in (m ∷ [], some m)

-- The shape of the four checks of containers.
unfoldable pub container_evaluate :
    String
    → Float
    → (Container → String × Option String)
    → (Container → Bool)
    → List Container
    → List Message × Option Message
unfolding below_threshold
container_evaluate name share shown offends containers =
    if below_threshold share
    then ([], none)
    else report_on name share (map shown (filter offends containers))

abbrev pub by_name : Container → String × Option String
by_name c = (c.name, none)

abbrev pub lacks_digest : Container → Bool
lacks_digest c = elim (find? c.image "@sha256:") [ none ↦ true | some i ↦ false ]

abbrev pub is_non_root : Status → Bool
is_non_root non_root = true
is_non_root s = false

abbrev pub digest_pin_check : Check
digest_pin_check = record {
  name = "digest-pin";
  evaluate = λ pod n.
      container_evaluate "digest-pin" n.digest_pin_fraction (λ c. (c.name, some c.image))
        (lacks_digest) (admitted_containers pod);
}

abbrev pub non_root_check : Check
non_root_check = record {
  name = "non-root";
  evaluate = λ pod n.
      container_evaluate "non-root" n.non_root_fraction (by_name)
        (λ c. not (is_non_root (root_status (some pod) c))) (admitted_containers pod);
}

abbrev pub no_priv_esc_check : Check
no_priv_esc_check = record {
  name = "no-privilege-escalation";
  evaluate = λ pod n.
      container_evaluate "no-privilege-escalation" n.no_privilege_escalation_fraction (by_name)
        (allows_privilege_escalation) (admitted_containers pod);
}

abbrev pub read_only_root_fs_check : Check
read_only_root_fs_check = record {
  name = "read-only-root-fs";
  evaluate = λ pod n.
      container_evaluate "read-only-root-fs" n.read_only_root_fs_fraction (by_name)
        (λ c. not (read_only_root_fs c)) (admitted_containers pod);
}

unfoldable pub uses_default_account : Pod → Bool
uses_default_account pod = pod.service_account_name == "" || pod.service_account_name == "default"

unfoldable pub account_evaluate : Float → Pod → List Message × Option Message
unfolding below_threshold uses_default_account
account_evaluate share pod =
    if below_threshold share
    then ([], none)
    else if not (uses_default_account pod)
    then ([], none)
    else let m = deviates "named-service-account" share [] in (m ∷ [], some m)

abbrev pub named_sa_check : Check
named_sa_check = record {
  name = "named-service-account";
  evaluate = λ pod n. account_evaluate n.named_service_account_fraction pod;
}

abbrev pub default_checks : List Check
default_checks =
    digest_pin_check ∷ non_root_check ∷ no_priv_esc_check ∷ named_sa_check ∷ read_only_root_fs_check
    ∷ []
