-- ===== src/Admission/Compliant.antt =====
-- What the built-in checks of internal/admission/checks.go ask of a pod that they find nothing against.
use fleetsweeper.Common.{
  ◌≡◌, Bool, true, false, List, [], ◌∷◌, Option, none, some, String, arith, All, filter, refl, inl,
  inr, Bool-cases, ap, string_eq, ◌≢◌, ◌++◌, eq_iff, sym, ◌∙◌, map,
}
use fleetsweeper.PodSecurity.{
  Pod, Container, pod_context, effective_run_as_user, effective_run_as_non_root, root_status,
}
use fleetsweeper.Common.Floats.{Float}
use fleetsweeper.Admission.Norms.{Norm, Baseline, sufficient}
use fleetsweeper.Admission.Checks.{
  Check, Message, report_on, admitted_containers, container_evaluate, account_evaluate,
  default_checks, uses_default_account,
}
use fleetsweeper.Admission.{
  Handler, failure_of, dry_run, AdmissionRequest, Tally, allowed, run_checks, conclude, decode_pod,
  evaluate_decision, enforce,
}
use fleetsweeper.Admission.Settings.{
  Expected, Expected-below_threshold, Pinned, NonRoot, NoEscalation, ReadOnly, Compliant,
  Pinned-lacks_digest, NonRoot-status, not_offends, NoEscalation-escalates, ReadOnly-context,
}

All-filter_none {ℓ κ} :
    {A : Type ℓ} (P : A → Type κ) (p : A → Bool) (xs : List A)
    → ((x : A) → p x ≡ false → P x)
    → filter p xs ≡ []
    → All P xs
All-filter_none P p [] h e = tt
All-filter_none P p (x ∷ xs) h e = elim (Bool-cases (p x)) [
  | inl t ↦ let never : x ∷ filter p xs ≡ [] = rw t at e in cc
  | inr f ↦ (h x f, All-filter_none P p xs h (rw f at e))
]

All-append_nil {ℓ κ} : {A : Type ℓ} (P : A → Type κ) (xs : List A) → All P (xs ++ []) → All P xs
All-append_nil P [] a = tt
All-append_nil P (x ∷ xs) a = (a.0, All-append_nil P xs a.1)

unreported :
    (name : String) (share : Float) (shown : Container → String × Option String)
    (cs : List Container)
    → report_on name share (map shown cs) ≡ ([], none)
    → cs ≡ []
unreported name share shown [] e = refl
unreported name share shown (c ∷ cs) e = absurd (ground (arith, ap (λ p. p.0) e))

-- A check of containers that says nothing has no offender, where the fleet's share is enough.
silent-All :
    (P : Container → Type 0) (name : String) (share : Float)
    (shown : Container → String × Option String) (offends : Container → Bool) (pod : Pod)
    → ((c : Container) → offends c ≡ false → P c)
    → container_evaluate name share shown offends (admitted_containers pod) ≡ ([], none)
    → Expected share
    → All P (pod.init_containers ++ pod.containers)
unfolding container_evaluate admitted_containers
silent-All P name share shown offends pod h e x =
    let cs = admitted_containers pod in
    let said : report_on name share (map shown (filter offends cs)) ≡ ([], none) =
      rw (Expected-below_threshold share x, container_evaluate) at e in
    All-append_nil P (pod.init_containers ++ pod.containers)
      (All-filter_none P offends cs h (unreported name share shown (filter offends cs) said))

silent_account :
    (share : Float) (pod : Pod)
    → account_evaluate share pod ≡ ([], none)
    → Expected share
    → (pod.service_account_name ≢ "") × (pod.service_account_name ≢ "default")
unfolding account_evaluate uses_default_account
silent_account share pod e x = elim (Bool-cases (uses_default_account pod)) [
  | inl t ↦ absurd (
      ground
        (arith, ap (λ p. p.0) (rw (Expected-below_threshold share x, t, account_evaluate) at e)))
  | inr f ↦
      ground
        (arith, f, eq_iff pod.service_account_name "", eq_iff pod.service_account_name "default")
]

abbrev Silent : Pod → Norm → Check → Type 0
Silent pod n chk = chk.evaluate pod n ≡ ([], none)

default_checks-Compliant :
    (pod : Pod) (n : Norm) → All (Silent pod n) default_checks → Compliant pod n
unfolding root_status effective_run_as_user effective_run_as_non_root pod_context
default_checks-Compliant pod n (digest, (user, (gain, (sa, (files, end))))) = record {
  pinned = silent-All Pinned _ _ _ _ pod Pinned-lacks_digest digest;
  non_root =
      silent-All (NonRoot pod) _ _ _ _ pod (λ c o. NonRoot-status _ _ (not_offends _ o)) user;
  no_escalation = silent-All NoEscalation _ _ _ _ pod NoEscalation-escalates gain;
  account = silent_account n.named_service_account_fraction pod sa;
  read_only = silent-All ReadOnly _ _ _ _ pod (λ c o. ReadOnly-context c (not_offends _ o)) files;
}

no_failure :
    (name : String) (said : List Message × Option Message) (rest : List String)
    → failure_of name said.0 said.1 ++ rest ≡ []
    → (said ≡ ([], none)) × (rest ≡ [])
no_failure name ([], none) rest e = (refl, e)
no_failure name ([], some m) rest e = absurd (ground (arith, e))
no_failure name (w ∷ ws, m) rest e = absurd (ground (arith, e))

abbrev no_tally : Tally
no_tally = record { warnings = []; denies = []; failures = [] }

run_checks-Silent :
    (h : Handler) (pod : Pod) (b : Baseline) (checks : List Check)
    → (run_checks h pod b checks).failures ≡ []
    → All (Silent pod b.norm) checks × (run_checks h pod b checks ≡ no_tally)
unfolding run_checks enforce
run_checks-Silent h pod b [] e = (tt, refl)
run_checks-Silent h pod b (chk ∷ more) e =
    let first =
      no_failure chk.name (chk.evaluate pod b.norm) (run_checks h pod b more).failures e in
    let rest = run_checks-Silent h pod b more first.1 in
    ((first.0, rest.0), rw (first.0, run_checks, rest.1) refl)

conclude-failures :
    (h : Handler) (uid : String) (dry : Bool) (t : Tally)
    → (conclude h uid dry t).failures ≡ t.failures
unfolding conclude
conclude-failures h uid dry t = ground arith

-- Under every mode, when the built-in checks are run on a pod against a norm that rests on enough data and
-- none of them counts a failure, the pod is allowed without a warning, and it follows every norm that at
-- least 0.70 of the fleet follows, in its own fields: the image of each init container and container
-- names a digest; each runs as a user that is not root and is set or barred from being root; each says that
-- it does not gain privileges, is not privileged and adds none of SYS_ADMIN, CAP_SYS_ADMIN and ALL; each has a read-only
-- root filesystem; and the pod names a service account other than default.
pub evaluate_decision-Compliant :
    (h : Handler) (b : Baseline) (req : AdmissionRequest) (pod : Pod)
    → h.checks ≡ default_checks
    → sufficient b.norm ≡ true
    → decode_pod req ≡ some pod
    → (evaluate_decision h b req).failures ≡ []
    → (evaluate_decision h b req ≡ record {
      response = record { uid = req.uid; allowed = true; message = []; warnings = [] };
      decision = allowed;
      failures = [];
    })
      × Compliant pod b.norm
unfolding evaluate_decision conclude
evaluate_decision-Compliant h b req pod c s d quiet =
    let t = run_checks h pod b default_checks in
    let outcome : evaluate_decision h b req ≡ conclude h req.uid (dry_run pod) t =
      rw (d, evaluate_decision, s, c) refl in
    let none_failed =
      sym (conclude-failures h req.uid (dry_run pod) t)
      ∙ sym (ap (λ o. o.failures) outcome)
      ∙ quiet in
    let silent = run_checks-Silent h pod b default_checks none_failed in
    (outcome ∙ rw silent.1 refl, default_checks-Compliant pod b.norm silent.0)
