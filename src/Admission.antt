-- ===== src/Admission.antt =====
-- The admission webhook: internal/admission/handler.go and types.go.
-- Messages stand as the values that their texts are made of. `Handler.provider` is a section's parameter.
pub mod Norms
pub mod Checks
pub mod Provider
pub mod Denial
pub mod Bounds
pub mod Settings
pub mod Compliant
pub mod Examples
use fleetsweeper.Common.{
  ℕ, zero, suc, ◌+◌, ◌-◌, Bool, true, false, not, ◌&&◌, ◌||◌, List, [], ◌∷◌, ◌++◌, Option, none,
  some, String, if◌then◌else◌, ltb, leb, eqb, ◌==◌, string_eq, map,
}
use fleetsweeper.Common.Map.{lookup}
use fleetsweeper.Common.Integers.{ℤ, pos, negsuc}
use fleetsweeper.PodSecurity.{Pod}
use fleetsweeper.Admission.Norms.{Baseline, Norm, sufficient, default_stable_scans}
use fleetsweeper.Admission.Checks.{Check, Message}

pub data Warning : Type 0 where
  failed_to_decode : Warning
  too_thin : ℤ → ℤ → Warning
  found : Message → Warning
  not_enforced : String → ℕ → ℕ → Warning
  would_deny : List Message → Warning
  not_evaluated : Warning

pub data Decision : Type 0 where
  allowed denied warned skipped : Decision

pub record Response : Type 0 where
  pub uid : String
  pub allowed : Bool
  pub message : List Message
  pub warnings : List Warning

-- A response, what it counts as, and the checks that count a failure.
pub record Outcome : Type 0 where
  pub response : Response
  pub decision : Decision
  pub failures : List String

pub record AdmissionRequest : Type 0 where
  pub uid : String
  pub kind : String
  -- what `json.Unmarshal` makes of the object
  pub object : Option Pod

pub record Handler : Type 0 where
  pub checks : List Check
  pub mode : String
  pub max_bytes : ℤ
  pub stable_scans : ℤ

unfoldable pub enforcing : String → Bool
enforcing mode = mode == "enforce"

abbrev pub dry_run_annotation : String
dry_run_annotation = "fleetsweeper.dev/admission-dry-run"

abbrev pub default_max_bytes : ℕ
default_max_bytes = 1_048_576

abbrev pub new_handler : List Check → String → Handler
new_handler checks mode = record {
  checks = checks;
  mode = mode;
  max_bytes = pos default_max_bytes;
  stable_scans = pos default_stable_scans;
}

-- A setting that must be above zero, or its default.
abbrev pub or_default : ℕ → ℤ → ℕ
or_default d (pos zero) = d
or_default d (pos (suc n)) = suc n
or_default d (negsuc n) = d

unfoldable pub dry_run : Pod → Bool
dry_run pod = elim (lookup dry_run_annotation pod.annotations) [
  | none ↦ false
  | some v ↦ v == "true"
]

abbrev pub fires : Check → Pod → Norm → Bool
fires chk pod n = elim (chk.evaluate pod n).1 [ none ↦ false | some m ↦ true ]

-- The loop of `heldScans` over the scans before the latest.
unfoldable pub held_from : Check → Pod → ℕ → ℕ → List Norm → ℕ
unfolding sufficient
held_from chk pod want held [] = held
held_from chk pod want held (prev ∷ older) =
    let rest = held_from chk pod want (held + 1) older in
    if leb want held || not (sufficient prev)
    then held
    else if not (fires chk pod prev)
    then held
    else rest

unfoldable pub held_scans : Check → Pod → Baseline → ℕ → ℕ
unfolding held_from
held_scans chk pod b want = if b.pinned then want else held_from chk pod want 1 b.previous

-- What the checks so far add to the response.
pub record Tally : Type 0 where
  pub warnings : List Warning
  pub denies : List Message
  pub failures : List String

-- The rest of the loop's body: what a check's deny message adds to the warnings and to the denials.
unfoldable pub enforce :
    Handler → Check → Pod → Baseline → Option Message → List Warning × List Message
unfolding enforcing held_scans
enforce h chk pod b none = ([], [])
enforce h chk pod b (some deny) =
    let window = or_default default_stable_scans h.stable_scans in
    let held = held_scans chk pod b window in
    if not (enforcing h.mode)
    then ([], [])
    else if ltb held window
    then (not_enforced chk.name held window ∷ [], [])
    else ([], deny ∷ [])

abbrev pub failure_of : String → List Message → Option Message → List String
failure_of name [] none = []
failure_of name ws deny = name ∷ []

unfoldable pub run_checks : Handler → Pod → Baseline → List Check → Tally
unfolding enforce
run_checks h pod b [] = record { warnings = []; denies = []; failures = [] }
run_checks h pod b (chk ∷ more) =
    let (ws, deny) = chk.evaluate pod b.norm in
    let (held_back, denies) = enforce h chk pod b deny in
    let rest = run_checks h pod b more in
    record {
      warnings = map found ws ++ (held_back ++ rest.warnings);
      denies = denies ++ rest.denies;
      failures = failure_of chk.name ws deny ++ rest.failures;
    }

abbrev pub respond : String → Bool → List Message → List Warning → Decision → List String → Outcome
respond uid ok message warnings decision failures = record {
  response = record { uid = uid; allowed = ok; message = message; warnings = warnings };
  decision = decision;
  failures = failures;
}

-- A pod that nothing denies.
abbrev pub pass : String → Tally → Outcome
pass uid t = elim t.warnings [
  | [] ↦ respond uid true [] [] allowed t.failures
  | w ∷ ws ↦ respond uid true [] (w ∷ ws) warned t.failures
]

-- The end of `evaluateDecision`, after the loop over the checks.
unfoldable pub conclude : Handler → String → Bool → Tally → Outcome
unfolding enforcing
conclude h uid dry t = elim t.denies [
  | [] ↦ pass uid t
  | d ∷ ds ↦
      if dry
      then respond uid true [] (t.warnings ++ (would_deny (d ∷ ds) ∷ [])) warned t.failures
      else if enforcing h.mode
      then respond uid false (d ∷ ds) t.warnings denied t.failures
      else pass uid t
]

unfoldable pub decode_pod : AdmissionRequest → Option Pod
decode_pod req = if not (req.kind == "Pod") then none else req.object

unfoldable pub evaluate_decision : Handler → Baseline → AdmissionRequest → Outcome
unfolding decode_pod sufficient run_checks conclude dry_run
evaluate_decision h b req = elim (decode_pod req) [
  | none ↦ respond req.uid true [] (failed_to_decode ∷ []) skipped []
  | some pod ↦
      if not (sufficient b.norm)
      then respond req.uid true [] (too_thin b.norm.sample_pods b.norm.sample_containers ∷ [])
          skipped []
      else conclude h req.uid (dry_run pod) (run_checks h pod b h.checks)
]

-- A request body: its size, and what the deserializer makes of it.
pub data Review : Type 0 where
  undecodable missing_request : Review
  request : AdmissionRequest → Review

pub data Answer : Type 0 where
  bad_request : Answer
  answer : Outcome → Answer

-- A review that cannot be evaluated allows its pod.
abbrev pub unevaluated : Outcome
unevaluated = respond "" true [] (not_evaluated ∷ []) skipped []

unfoldable pub serve_http : Handler → Baseline → ℕ → Review → Answer
unfolding evaluate_decision
serve_http h b size review =
    if ltb (or_default default_max_bytes h.max_bytes) size then bad_request else elim review [
      | undecodable ↦ answer unevaluated
      | missing_request ↦ answer unevaluated
      | request req ↦ answer (evaluate_decision h b req)
    ]
