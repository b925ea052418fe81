-- ===== src/PodSecurity.antt =====
-- Security settings of a pod's containers: internal/podsec/podsec.go.
-- Of the Kubernetes objects stand here the fields that the modelled code reads. Names of capabilities are
-- lists of code points.
use fleetsweeper.Common.{
  ℕ, zero, suc, ◌-◌, Bool, true, false, ◌&&◌, ◌||◌, List, [], ◌∷◌, ◌++◌, Option, none, some, String,
  if◌then◌else◌, leb, eqb, ◌==◌, string_eq, list_eq, nat_eq, map,
}
use fleetsweeper.Common.Map.{Map}
use fleetsweeper.Common.Integers.{ℤ, pos}
use fleetsweeper.Server.Auth.Bearer.{Text}

pub data SeccompType : Type 0 where
  runtime_default localhost unconfined : SeccompType

pub record Capabilities : Type 0 where
  pub add : List Text
  pub drop : List Text

pub record SecurityContext : Type 0 where
  pub run_as_non_root : Option Bool
  pub run_as_user : Option ℤ
  pub allow_privilege_escalation : Option Bool
  pub privileged : Option Bool
  pub read_only_root_filesystem : Option Bool
  pub capabilities : Option Capabilities
  pub seccomp_profile : Option SeccompType

pub record PodSecurityContext : Type 0 where
  pub run_as_non_root : Option Bool
  pub run_as_user : Option ℤ
  pub seccomp_profile : Option SeccompType

pub record Container : Type 0 where
  pub name : String
  pub image : String
  pub security_context : Option SecurityContext

pub record Pod : Type 0 where
  pub annotations : Map String String
  pub service_account_name : String
  pub security_context : Option PodSecurityContext
  pub init_containers : List Container
  pub containers : List Container
  pub ephemeral_containers : List Container

pub data Status : Type 0 where
  root non_root unknown : Status

-- A setting read through a context that may be absent.
abbrev pub of_context {ℓ κ} : {S : Type ℓ} {A : Type κ} → (S → Option A) → Option S → Option A
of_context f none = none
of_context f (some s) = f s

-- The container's value if it is set, else the pod's.
abbrev pub first_set {ℓ} : {A : Type ℓ} → Option A → Option A → Option A
first_set (some a) o = some a
first_set none o = o

unfoldable pub pod_context : Option Pod → Option PodSecurityContext
pod_context none = none
pod_context (some p) = p.security_context

-- None stands for Go's `false, false`, a value that neither level sets.
unfoldable pub effective_run_as_non_root : Option Pod → Container → Option Bool
unfolding pod_context
effective_run_as_non_root p c =
    first_set (of_context (λ s. s.run_as_non_root) c.security_context)
      (of_context (λ s. s.run_as_non_root) (pod_context p))

unfoldable pub effective_run_as_user : Option Pod → Container → Option ℤ
unfolding pod_context
effective_run_as_user p c =
    first_set (of_context (λ s. s.run_as_user) c.security_context)
      (of_context (λ s. s.run_as_user) (pod_context p))

-- The status of a user and of runAsNonRoot.
unfoldable pub status_of : Option ℤ → Option Bool → Status
status_of (some (pos zero)) b = root
status_of u (some true) = non_root
status_of (some (pos (suc n))) b = non_root
status_of u b = unknown

unfoldable pub root_status : Option Pod → Container → Status
unfolding effective_run_as_non_root effective_run_as_user status_of
root_status p c = status_of (effective_run_as_user p c) (effective_run_as_non_root p c)

-- `strings.ToUpper` on what can reach an ASCII letter: of the others only U+017F and U+0131 do.
unfoldable pub to_upper : ℕ → ℕ
to_upper c =
    if leb b'a' c && leb c b'z'
    then c - 32
    else if eqb c 0x17F
    then b'S'
    else if eqb c 0x131
    then b'I'
    else c

-- `strings.TrimPrefix`
abbrev pub trim_prefix : Text → Text → Text → Text
trim_prefix [] rest whole = rest
trim_prefix (p ∷ ps) [] whole = whole
trim_prefix (p ∷ ps) (c ∷ cs) whole =
    let rest = trim_prefix ps cs whole in if eqb p c then rest else whole

abbrev pub cap_prefix : Text
cap_prefix = b'C' ∷ b'A' ∷ b'P' ∷ b'_' ∷ []

abbrev pub sys_admin : Text
sys_admin = b'S' ∷ b'Y' ∷ b'S' ∷ b'_' ∷ b'A' ∷ b'D' ∷ b'M' ∷ b'I' ∷ b'N' ∷ []

abbrev pub all_caps : Text
all_caps = b'A' ∷ b'L' ∷ b'L' ∷ []

-- An added capability that lets a process gain privileges.
unfoldable pub gains_privileges : Text → Bool
unfolding to_upper
gains_privileges added =
    let upper = map to_upper added in
    let name = trim_prefix cap_prefix upper upper in name == sys_admin || name == all_caps

abbrev pub any_of {ℓ} : {A : Type ℓ} → (A → Bool) → List A → Bool
any_of p [] = false
any_of p (x ∷ xs) = p x || any_of p xs

abbrev pub adds_privileges : Option Capabilities → Bool
adds_privileges none = false
adds_privileges (some caps) = any_of gains_privileges caps.add

abbrev pub escalates : Option Bool → Option Bool → Option Capabilities → Bool
escalates none privileged caps = true
escalates (some allowed) (some true) caps = true
escalates (some allowed) privileged caps = adds_privileges caps || allowed

unfoldable pub allows_privilege_escalation : Container → Bool
unfolding gains_privileges
allows_privilege_escalation c = elim c.security_context [
  | none ↦ true
  | some s ↦ escalates s.allow_privilege_escalation s.privileged s.capabilities
]

unfoldable pub read_only_root_fs : Container → Bool
read_only_root_fs c = elim (of_context (λ s. s.read_only_root_filesystem) c.security_context) [
  | none ↦ false
  | some b ↦ b
]

-- `strings.EqualFold(s, "ALL")`: no character but the ASCII letters folds to A or L.
unfoldable pub drops_all_capabilities : Container → Bool
unfolding to_upper
drops_all_capabilities c = elim (of_context (λ s. s.capabilities) c.security_context) [
  | none ↦ false
  | some caps ↦ any_of (λ d. map to_upper d == all_caps) caps.drop
]

unfoldable pub seccomp_confined : Option Pod → Container → Bool
unfolding pod_context
seccomp_confined p c =
    elim (first_set (of_context (λ s. s.seccomp_profile) c.security_context)
      (of_context (λ s. s.seccomp_profile) (pod_context p))) [
        | some runtime_default ↦ true
        | some localhost ↦ true
        | _ ↦ false
      ]

unfoldable pub all_containers : Option Pod → Bool → List Container
all_containers none ephemeral = []
all_containers (some p) ephemeral =
    (p.init_containers ++ p.containers) ++ (if ephemeral then p.ephemeral_containers else [])
