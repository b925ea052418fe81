-- ===== src/Admission/Denial.antt =====
-- When the admission webhook denies a pod.
use fleetsweeper.Common.{
  ℕ, zero, suc, ◌+◌, ◌-◌, ◌≤◌, ◌≡◌, ◌↔◌, ◌⊎◌, inl, inr, Bool, true, false, not, ◌||◌, List, [], ◌∷◌,
  ◌++◌, some, String, if◌then◌else◌, ltb, string_eq, arith, AnyOf, Option-cases, refl, sym, subst,
  ◌∙◌,
}
use fleetsweeper.Common.Integers.{ℤ, pos, negsuc}
use fleetsweeper.PodSecurity.{Pod}
use fleetsweeper.Admission.Norms.{Baseline, Norm, sufficient, default_stable_scans}
use fleetsweeper.Admission.Checks.{Check, Message}
use fleetsweeper.Admission.{
  Handler, Warning, AdmissionRequest, Tally, enforcing, or_default, fires, held_from, held_scans,
  enforce, run_checks, pass, conclude, decode_pod, evaluate_decision, dry_run,
}

module _ (chk : Check) (pod : Pod) where
  -- The norms of so many scans before the latest were sufficient and broken by the pod, with no gap.
  abbrev pub Held : ℕ → List Norm → Type 0
  Held zero ps = Unit
  Held (suc n) [] = ⊥
  Held (suc n) (p ∷ ps) = (sufficient p ≡ true) × (fires chk pod p ≡ true) × Held n ps

  held_from-Held :
      (k held want : ℕ) (ps : List Norm)
      → want ≡ held + k
      → (ltb (held_from chk pod want held ps) want ≡ false) ↔ Held k ps
  unfolding held_from
  held_from-Held zero held want [] e = ground arith
  held_from-Held zero held want (p ∷ ps) e = ground arith
  held_from-Held (suc k) held want [] e = ground arith
  held_from-Held (suc k) held want (p ∷ ps) e =
      ground (arith, held_from-Held k (held + 1) want ps (omega (arith, e)))

abbrev pub window_of : Handler → ℕ
window_of h = or_default default_stable_scans h.stable_scans

-- A check that the pod fails and that the mode and the past scans let deny it.
abbrev pub Enforced : Handler → Pod → Baseline → Check → Type 0
Enforced h pod b chk =
    (enforcing h.mode ≡ true)
    × (fires chk pod b.norm ≡ true)
    × ((b.pinned ≡ true) ⊎ Held chk pod (window_of h - 1) b.previous)

or_default-positive : (z : ℤ) → 1 ≤ or_default default_stable_scans z
or_default-positive (pos zero) = ground arith
or_default-positive (pos (suc n)) = omega arith
or_default-positive (negsuc n) = ground arith

held_scans-Held :
    (chk : Check) (pod : Pod) (b : Baseline) (want : ℕ)
    → 1 ≤ want
    → (ltb (held_scans chk pod b want) want ≡ false)
      ↔ ((b.pinned ≡ true) ⊎ Held chk pod (want - 1) b.previous)
unfolding held_scans
held_scans-Held chk pod b want h =
    ground (arith, held_from-Held chk pod (want - 1) 1 want b.previous (omega (arith, h)))

abbrev nonempty {ℓ} : {A : Type ℓ} → List A → Bool
nonempty [] = false
nonempty (x ∷ xs) = true

nonempty-append {ℓ} :
    {A : Type ℓ} (xs ys : List A) → nonempty (xs ++ ys) ≡ (nonempty xs || nonempty ys)
nonempty-append [] ys = ground arith
nonempty-append (x ∷ xs) ys = ground arith

module _ (h : Handler) (pod : Pod) (b : Baseline) where
  enforce-Enforced :
      (chk : Check)
      → (nonempty (enforce h chk pod b (chk.evaluate pod b.norm).1).1 ≡ true) ↔ Enforced h pod b chk
  unfolding enforce
  enforce-Enforced chk = elim (Option-cases (chk.evaluate pod b.norm).1) [
    | inl e ↦ rw e (ground arith)
    | inr (m, e) ↦ rw e (
        ground
          (arith, held_scans-Held chk pod b (window_of h) (or_default-positive h.stable_scans)))
  ]

  run_checks-Enforced :
      (checks : List Check)
      → (nonempty (run_checks h pod b checks).denies ≡ true) ↔ AnyOf (Enforced h pod b) checks
  unfolding run_checks
  run_checks-Enforced [] = ground arith
  run_checks-Enforced (chk ∷ more) = ground (
    arith,
    nonempty-append (enforce h chk pod b (chk.evaluate pod b.norm).1).1
        (run_checks h pod b more).denies,
    enforce-Enforced chk,
    run_checks-Enforced more,
  )

pass_allows : (uid : String) (t : Tally) → (pass uid t).response.allowed ≡ true
pass_allows uid t = cases t.warnings
  where
    cases : (ws : List Warning) → (pass uid (record t { warnings = ws })).response.allowed ≡ true
    cases [] = refl
    cases (w ∷ ws) = refl

conclude_lem :
    (h : Handler) (uid : String) (dry : Bool) (t : Tally) (ds : List Message)
    → t.denies ≡ ds
    → ((conclude h uid dry t).response.allowed ≡ false)
      ↔ ((nonempty ds ≡ true) × (dry ≡ false) × (enforcing h.mode ≡ true))
unfolding conclude
conclude_lem h uid dry t [] e = rw e (ground (arith, pass_allows uid t))
conclude_lem h uid dry t (d ∷ ds) e = rw e (ground (arith, pass_allows uid t))

AnyOf-enforcing :
    (h : Handler) (pod : Pod) (b : Baseline) (checks : List Check)
    → AnyOf (Enforced h pod b) checks
    → enforcing h.mode ≡ true
AnyOf-enforcing h pod b [] a = absurd a
AnyOf-enforcing h pod b (c ∷ cs) (inl e) = e.0
AnyOf-enforcing h pod b (c ∷ cs) (inr a) = AnyOf-enforcing h pod b cs a

-- The answer about a pod that was decoded.
unfoldable decided : Handler → Baseline → AdmissionRequest → Pod → Bool
decided h b req pod =
    if not (sufficient b.norm)
    then true
    else (conclude h req.uid (dry_run pod) (run_checks h pod b h.checks)).response.allowed

decided-denied :
    (h : Handler) (b : Baseline) (req : AdmissionRequest) (pod : Pod)
    → (decided h b req pod ≡ false)
      ↔ ((sufficient b.norm ≡ true) × (dry_run pod ≡ false) × AnyOf (Enforced h pod b) h.checks)
unfolding decided
decided-denied h b req pod =
    let t = run_checks h pod b h.checks in
    ground (
      arith,
      conclude_lem h req.uid (dry_run pod) t t.denies refl,
      run_checks-Enforced h pod b h.checks,
      AnyOf-enforcing h pod b h.checks,
    )

-- A review is denied exactly when its object is a pod, the latest norm rests on enough containers and pods,
-- the pod does not ask for a dry run, and some check denies it: the mode is enforce, the pod fails the check
-- against the latest norm, and either the norm is pinned or the pod fails the check against each of the norms
-- before the latest, without a gap and each resting on enough data, until the window of scans is full.
pub evaluate_decision-denied :
    (h : Handler) (b : Baseline) (req : AdmissionRequest)
    → ((evaluate_decision h b req).response.allowed ≡ false) ↔ (
        (pod : Pod) × (decode_pod req ≡ some pod)
        × (sufficient b.norm ≡ true)
        × (dry_run pod ≡ false)
        × AnyOf (Enforced h pod b) h.checks)
unfolding evaluate_decision decided
evaluate_decision-denied h b req = elim (Option-cases (decode_pod req)) [
  | inl e ↦ rw e (ground arith)
  | inr (pod, e) ↦
      let answer : (evaluate_decision h b req).response.allowed ≡ decided h b req pod =
        rw (e, evaluate_decision) (ground arith) in
      (
        λ denied.
            let (x, y, z) = (decided-denied h b req pod).0 (sym answer ∙ denied) in
            (pod, e, x, y, z),
        λ (pod', e', x, y, z).
            answer
            ∙ (decided-denied h b req pod).1 (
                subst
                  (λ p.
                    (sufficient b.norm ≡ true)
                    × (dry_run p ≡ false)
                    × AnyOf (Enforced h p b) h.checks)
                  (ground arith) (x, y, z)),
      )
]
