-- ===== src/Admission/Bounds.antt =====
-- The fractions of a norm stay between 0 and 1, and a failed recompute keeps what was known.
use fleetsweeper.Common.{
  ℕ, ◌+◌, ◌*◌, ◌≤◌, ◌<◌, ltb, length, zero, suc, ◌≡◌, true, false, List, [], ◌∷◌, Option, none,
  some, String, arith, All, refl, inl, inr, Bool-cases, Option-cases, subst, eqb,
}
use fleetsweeper.Common.Integers.{ℤ, pos, negsuc, ◌+ℤ◌, ◌-ℤ◌, int64, at_least, positive_part}
use fleetsweeper.Admission.Norms.{
  float_ratio, ClusterResults, WorkloadSec, ImageAudit, ScannerResult, Sums, usable,
  tally_image_audit, tally_workload_sec, add_image_audit, add_workload_sec, sum_results, no_sums,
  norm_of,
}
use fleetsweeper.Admission.Provider.{in_unit, all_in_unit, load_baseline_file}

float_ratio-in_unit : (n d : ℤ) → in_unit (float_ratio n d) ≡ true
unfolding float_ratio in_unit
float_ratio-in_unit (pos n) (pos zero) = ground arith
float_ratio-in_unit (pos n) (pos (suc d)) = ground arith
float_ratio-in_unit (pos n) (negsuc d) = ground arith
float_ratio-in_unit (negsuc n) (pos zero) = ground arith
float_ratio-in_unit (negsuc n) (pos (suc d)) = ground arith
float_ratio-in_unit (negsuc n) (negsuc d) = ground arith

-- A count from 0 to a bound.
abbrev pub UpTo : ℕ → ℤ → Type 0
UpTo b (pos n) = n ≤ b
UpTo b (negsuc n) = ⊥

-- A sum that stays in 63 bits does not wrap.
UpTo-add :
    (a b : ℕ) (x y : ℤ)
    → a + b < 9_223_372_036_854_775_808
    → UpTo a x
    → UpTo b y
    → UpTo (a + b) (int64 (x +ℤ y))
unfolding ◌+ℤ◌ int64
UpTo-add a b (pos m) (pos n) room h k =
    let low : ltb (m + n) 9_223_372_036_854_775_808 ≡ true = ground (arith, room, h, k) in
    rw low (omega (arith, h, k))
UpTo-add a b (pos m) (negsuc n) room h k = absurd k
UpTo-add a b (negsuc m) y room h k = absurd h

UpTo-le : (a b : ℕ) (x : ℤ) → a ≤ b → UpTo a x → UpTo b x
UpTo-le a b (pos n) le h = omega (arith, le, h)
UpTo-le a b (negsuc n) le h = absurd h

-- 2 ^ 31.
abbrev pub most : ℕ
most = 2_147_483_648

abbrev pub PodsCounted : Option (Option WorkloadSec) → Type 0
PodsCounted none = Unit
PodsCounted (some raw) = UpTo most (tally_workload_sec raw).total_pods

abbrev pub ContainersCounted : Option (Option ImageAudit) → Type 0
ContainersCounted none = Unit
ContainersCounted (some raw) = UpTo most (tally_image_audit raw).0

-- A cluster reports from 0 to 2 ^ 31 pods, and containers.
abbrev pub CountsPods : ClusterResults → Type 0
CountsPods c = PodsCounted (usable c.workload_security) × ContainersCounted (usable c.image_audit)

abbrev Sound : ℕ → Sums → Type 0
Sound b s = UpTo b s.total_pods × UpTo b s.total_containers

module _ (b : ℕ) (s : Sums) (room : b + most < 9_223_372_036_854_775_808) where
  add_image_audit-UpTo :
      (r : Option (ScannerResult ImageAudit))
      → UpTo b s.total_containers
      → ContainersCounted (usable r)
      → UpTo (b + most) (add_image_audit r s).total_containers
  unfolding add_image_audit
  add_image_audit-UpTo r h k = elim (Option-cases (usable r)) [
    | inl e ↦ rw (add_image_audit, e) (UpTo-le b (b + most) s.total_containers (omega arith) h)
    | inr (raw, e) ↦
        rw (add_image_audit, e)
          (UpTo-add b most s.total_containers (tally_image_audit raw).0 room h
            (subst ContainersCounted e k))
  ]

  add_image_audit-pods :
      (r : Option (ScannerResult ImageAudit)) → (add_image_audit r s).total_pods ≡ s.total_pods
  unfolding add_image_audit
  add_image_audit-pods r = elim (Option-cases (usable r)) [
    | inl e ↦ rw (add_image_audit, e) refl
    | inr (raw, e) ↦ rw (add_image_audit, e) refl
  ]

  add_workload_sec-containers :
      (r : Option (ScannerResult WorkloadSec))
      → (add_workload_sec r s).total_containers ≡ s.total_containers
  unfolding add_workload_sec
  add_workload_sec-containers r = elim (Option-cases (usable r)) [
    | inl e ↦ rw (add_workload_sec, e) refl
    | inr (raw, e) ↦
        elim (Bool-cases (eqb (positive_part (tally_workload_sec raw).baseline_containers) 0)) [
          | inl z ↦ rw (add_workload_sec, e, z) refl
          | inr z ↦ rw (add_workload_sec, e, z) refl
        ]
  ]

  add_workload_sec-UpTo :
      (r : Option (ScannerResult WorkloadSec))
      → UpTo b s.total_pods
      → PodsCounted (usable r)
      → UpTo (b + most) (add_workload_sec r s).total_pods
  unfolding add_workload_sec
  add_workload_sec-UpTo r h k = elim (Option-cases (usable r)) [
    | inl e ↦ rw (add_workload_sec, e) (UpTo-le b (b + most) s.total_pods (omega arith) h)
    | inr (raw, e) ↦
        let t = tally_workload_sec raw in
        let more = UpTo-add b most s.total_pods t.total_pods room h (subst PodsCounted e k) in
        elim (Bool-cases (eqb (positive_part t.baseline_containers) 0)) [
          | inl z ↦ rw (add_workload_sec, e, z) more
          | inr z ↦ rw (add_workload_sec, e, z) more
        ]
  ]

sum_results-Sound :
    (cs : List ClusterResults) (b : ℕ) (s : Sums)
    → b + length cs * most < 9_223_372_036_854_775_808
    → Sound b s
    → All CountsPods cs
    → Sound (b + length cs * most) (sum_results cs s)
unfolding sum_results
sum_results-Sound [] b s room h k =
    (UpTo-le b _ s.total_pods (omega arith) h.0, UpTo-le b _ s.total_containers (omega arith) h.1)
sum_results-Sound (c ∷ cs) b s room h k =
    let s1 = add_image_audit c.image_audit s in
    let s2 = add_workload_sec c.workload_security s1 in
    let here : b + most < 9_223_372_036_854_775_808 = omega (arith, room) in
    let pods : UpTo (b + most) s2.total_pods =
      add_workload_sec-UpTo b s1 here c.workload_security
        (rw (add_image_audit-pods b s here c.image_audit) h.0) k.0.0 in
    let containers : UpTo (b + most) s2.total_containers =
      rw (add_workload_sec-containers b s1 here c.workload_security)
        (add_image_audit-UpTo b s here c.image_audit h.1 k.0.1) in
    let same : b + suc (length cs) * most ≡ (b + most) + length cs * most = omega arith in
    rw same (sum_results-Sound cs (b + most) s2 (omega (arith, room)) (pods, containers) k.1)

UpTo-at_least : (b : ℕ) (x : ℤ) → UpTo b x → at_least 0 x ≡ true
UpTo-at_least b (pos n) h = ground arith
UpTo-at_least b (negsuc n) h = absurd h

-- A norm that the provider derives from a scan has every fraction in [0, 1] and is accepted when it is pinned
-- as a file, whatever the scanners counted beside pods and containers, if each of fewer than 2 ^ 32 clusters
-- counts from 0 to 2 ^ 31 pods and as many containers.
pub load_baseline_file-norm_of :
    (scan_id : String) (results : List ClusterResults)
    → length results < 4_294_967_296
    → All CountsPods results
    → let n = norm_of scan_id (sum_results results no_sums) in
      load_baseline_file (some n) ≡ some (record { norm = n; previous = []; pinned = false })
unfolding load_baseline_file norm_of all_in_unit
load_baseline_file-norm_of scan_id results few h =
    let s = sum_results results no_sums in
    let sound =
      sum_results-Sound results 0 no_sums (omega (arith, few)) (omega arith, omega arith) h in
    rw
      (
        UpTo-at_least _ s.total_pods sound.0,
        UpTo-at_least _ s.total_containers sound.1,
        float_ratio-in_unit s.with_digest s.total_containers,
        float_ratio-in_unit s.non_root s.ws_containers,
        float_ratio-in_unit s.no_priv_esc s.ws_containers,
        float_ratio-in_unit (int64 (s.total_pods -ℤ s.default_sa_pods)) s.total_pods,
        float_ratio-in_unit s.read_only s.ws_containers,
      )
      refl
