-- ===== src/Admission/Settings.antt =====
-- A pod's own fields against the norms of a fleet, beside internal/admission/checks.go.
use fleetsweeper.Common.{
  ◌≡◌, Bool, true, false, not, List, [], ◌∷◌, Option, none, some, String, arith, All, refl, inl,
  inr, string_eq, ℕ, list_beq, zero, suc, ◌*◌, ◌≤◌, ◌≢◌, ◌⊎◌, ◌++◌, Option-cases,
}
use Prim.Native.String.{◌++◌ as append}
use text.Mathlib.TextFind.{find_cases}
use fleetsweeper.Common.Integers.{pos, negsuc, ℤ}
use fleetsweeper.Server.Auth.Bearer.{Text}
use fleetsweeper.PodSecurity.{
  Pod, Container, SecurityContext, Capabilities, of_context, first_set, any_of, status_of,
  escalates, to_upper, cap_prefix, sys_admin, all_caps, gains_privileges,
  allows_privilege_escalation, read_only_root_fs,
}
use fleetsweeper.Common.Floats.{Float, ratio, nan, infinity, minus_infinity}
use fleetsweeper.Admission.Norms.{Norm, below_threshold}
use fleetsweeper.Admission.Checks.{lacks_digest, is_non_root}

-- At least 0.70 of the fleet follows a norm.
abbrev pub Expected : Float → Type 0
Expected (ratio (pos n) d) = 70 * suc d ≤ 100 * n
Expected (ratio (negsuc n) d) = ⊥
Expected nan = Unit
Expected infinity = Unit
Expected minus_infinity = ⊥

pub Expected-below_threshold : (f : Float) → Expected f → below_threshold f ≡ false
unfolding below_threshold
Expected-below_threshold (ratio (pos n) d) h = ground (arith, h)
Expected-below_threshold (ratio (negsuc n) d) h = absurd h
Expected-below_threshold nan h = refl
Expected-below_threshold infinity h = refl
Expected-below_threshold minus_infinity h = absurd h

-- The image names a digest.
abbrev pub Pinned : Container → Type 0
Pinned c = (u : String) × (v : String) × (c.image ≡ append u (append "@sha256:" v))

-- The user is not root, and is set or barred from being root, at the container or else at the pod.
abbrev pub NonRoot : Pod → Container → Type 0
NonRoot pod c =
    let user =
      first_set (of_context (λ s. s.run_as_user) c.security_context)
        (of_context (λ s. s.run_as_user) pod.security_context) in
    let barred =
      first_set (of_context (λ s. s.run_as_non_root) c.security_context)
        (of_context (λ s. s.run_as_non_root) pod.security_context) in
    (user ≢ some (pos 0)) × ((barred ≡ some true) ⊎ (n : ℕ) × (user ≡ some (pos (suc n))))

abbrev pub added : Option Capabilities → List Text
added none = []
added (some caps) = caps.add

abbrev pub cap_sys_admin : Text
cap_sys_admin = cap_prefix ++ sys_admin

-- The container says that it does not gain privileges, and has no setting that lets it.
abbrev pub NoEscalation : Container → Type 0
NoEscalation c =
    (s : SecurityContext) × (c.security_context ≡ some s)
    × (s.allow_privilege_escalation ≡ some false)
    × (s.privileged ≢ some true)
    × All (λ a. (a ≢ sys_admin) × (a ≢ cap_sys_admin) × (a ≢ all_caps)) (added s.capabilities)

abbrev pub ReadOnly : Container → Type 0
ReadOnly c =
    (s : SecurityContext) × (c.security_context ≡ some s)
    × (s.read_only_root_filesystem ≡ some true)

-- The pod follows each norm that the fleet expects.
pub record Compliant (pod : Pod) (n : Norm) : Type 0 where
  pub pinned : Expected n.digest_pin_fraction → All Pinned (pod.init_containers ++ pod.containers)
  pub non_root :
      Expected n.non_root_fraction → All (NonRoot pod) (pod.init_containers ++ pod.containers)
  pub no_escalation :
      Expected n.no_privilege_escalation_fraction
      → All NoEscalation (pod.init_containers ++ pod.containers)
  pub account :
      Expected n.named_service_account_fraction
      → (pod.service_account_name ≢ "") × (pod.service_account_name ≢ "default")
  pub read_only :
      Expected n.read_only_root_fs_fraction → All ReadOnly (pod.init_containers ++ pod.containers)

pub Pinned-lacks_digest : (c : Container) → lacks_digest c ≡ false → Pinned c
Pinned-lacks_digest c h = elim (find_cases c.image "@sha256:") [
  | inl hit ↦ (hit.0, hit.1, hit.2)
  | inr miss ↦ absurd (ground (arith, h, miss))
]

pub NonRoot-status :
    (u : Option ℤ) (b : Option Bool)
    → is_non_root (status_of u b) ≡ true
    → (u ≢ some (pos 0)) × ((b ≡ some true) ⊎ (n : ℕ) × (u ≡ some (pos (suc n))))
unfolding status_of
NonRoot-status none none h = cc
NonRoot-status none (some true) h = (λ e. cc, inl refl)
NonRoot-status none (some false) h = cc
NonRoot-status (some (pos zero)) b h = cc
NonRoot-status (some (pos (suc n))) b h = (λ e. cc, inr (n, refl))
NonRoot-status (some (negsuc n)) none h = cc
NonRoot-status (some (negsuc n)) (some true) h = (λ e. cc, inl refl)
NonRoot-status (some (negsuc n)) (some false) h = cc

pub not_offends : (b : Bool) → not b ≡ false → b ≡ true
not_offends b h = ground arith

no_gain :
    (caps : List Text)
    → any_of gains_privileges caps ≡ false
    → All (λ a. (a ≢ sys_admin) × (a ≢ cap_sys_admin) × (a ≢ all_caps)) caps
unfolding gains_privileges to_upper list_beq
no_gain [] h = tt
no_gain (a ∷ caps) h = (
  (
    λ e. let never : true ≡ false = rw e at h in cc,
    λ e. let never : true ≡ false = rw e at h in cc,
    λ e. let never : true ≡ false = rw e at h in cc,
  ),
  no_gain caps (ground arith),
)

quiet_settings :
    (allow privileged : Option Bool) (caps : Option Capabilities)
    → escalates allow privileged caps ≡ false
    → (allow ≡ some false)
      × (privileged ≢ some true)
      × All (λ a. (a ≢ sys_admin) × (a ≢ cap_sys_admin) × (a ≢ all_caps)) (added caps)
quiet_settings none privileged caps h = cc
quiet_settings (some a) (some true) caps h = cc
quiet_settings (some a) (some false) none h = (ground (arith, h), (λ e. cc), tt)
quiet_settings (some a) none none h = (ground (arith, h), (λ e. cc), tt)
quiet_settings (some a) (some false) (some caps) h =
    (ground (arith, h), (λ e. cc), no_gain caps.add (ground (arith, h)))
quiet_settings (some a) none (some caps) h =
    (ground (arith, h), (λ e. cc), no_gain caps.add (ground (arith, h)))

pub NoEscalation-escalates :
    (c : Container) → allows_privilege_escalation c ≡ false → NoEscalation c
unfolding allows_privilege_escalation
NoEscalation-escalates c h = elim (Option-cases c.security_context) [
  | inl e ↦ let never : true ≡ false = rw (e, allows_privilege_escalation) at h in cc
  | inr (s, e) ↦
      let quiet : escalates s.allow_privilege_escalation s.privileged s.capabilities ≡ false =
        rw (e, allows_privilege_escalation) at h in
      let q = quiet_settings s.allow_privilege_escalation s.privileged s.capabilities quiet in
      (s, e, q.0, q.1, q.2)
]

pub ReadOnly-context : (c : Container) → read_only_root_fs c ≡ true → ReadOnly c
unfolding read_only_root_fs
ReadOnly-context c h = elim (Option-cases c.security_context) [
  | inl e ↦ let never : false ≡ true = rw (e, read_only_root_fs) at h in cc
  | inr (s, e) ↦ (s, e, ground (arith, rw (e, read_only_root_fs) at h))
]
