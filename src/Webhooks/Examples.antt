-- ===== src/Webhooks/Examples.antt =====
-- Runs of the dispatcher, and its theorems at concrete scans.
use fleetsweeper.Common.{
  ℕ, ◌+◌, ◌*◌, ◌≡◌, refl, Bool, true, false, [], ◌∷◌, Option, none, some, String, All, arith,
  string_eq, ◌==◌, map,
}
use fleetsweeper.Common.Map.{lookup, insert, keep, remove}
use fleetsweeper.Webhooks.{
  Finding, Subscriber, status, new_dispatcher, matches, severity_rank, severity_at_least, dedup_key,
  fingerprint, finding_fingerprint, is_recent, gc_expired, is_accepted, render_body, send, offer,
  offer_all, offer_to_all, dispatch,
}
use fleetsweeper.Webhooks.Delivery.{Spaced}
use fleetsweeper.Webhooks.Exchange.{Exchange}
use fleetsweeper.Webhooks.Attempts.{OneOf}
use fleetsweeper.Webhooks.Spacing.{Scan, run, run_from_start-Spaced, new_dispatcher-IsValid}
use fleetsweeper.Webhooks.Reach.{AllSettled, dispatch-AllSettled, offer_same_name}

abbrev privileged_pod : Finding
privileged_pod = record {
  severity = "critical";
  cluster = "prod-east";
  scanner = "workload-security";
  rule = "workload-security/privileged";
  title = "1 privileged pod";
  marks = [];
}

abbrev pager : Subscriber
pager = record {
  name = "pager";
  url = "https://pager.example";
  min_severity = "critical";
  scanner_regex = "";
  cluster_regex = "";
  headers = [];
  body_template = "";
  content_type = "application/json";
  scanner_re = none;
  cluster_re = none;
  tmpl = none;
}

-- A hash and a JSON encoding that tell these findings apart.
abbrev same : String → String
same s = s

abbrev title_of : Finding → String
title_of f = f.title

abbrev hour : ℕ
hour = 3_600_000_000_000

abbrev scan_at : ℕ → Scan
scan_at t = record {
  at = t;
  config = some (pager ∷ []);
  findings = privileged_pod ∷ privileged_pod ∷ [];
}

-- The first answer is an error: the repeated finding is tried again, and then not for six hours.
attempts_of_three_scans :
    map
      (λ a. a.accepted)
      (run same title_of same
        (scan_at hour ∷ scan_at (7 * hour) ∷ scan_at (7 * hour + 1) ∷ [])
        (new_dispatcher (status 500 ∷ []))).log
    ≡ true ∷ true ∷ false ∷ []
unfolding run dispatch offer_to_all offer_all offer send render_body is_accepted gc_expired
    is_recent dedup_key finding_fingerprint fingerprint matches severity_at_least severity_rank
    lookup insert keep remove
attempts_of_three_scans = refl

run_from_start-Spaced_example :
    Spaced (run same title_of same (scan_at hour ∷ scan_at (8 * hour) ∷ []) (new_dispatcher [])).log
run_from_start-Spaced_example =
    run_from_start-Spaced same title_of same [] (scan_at hour ∷ scan_at (8 * hour) ∷ [])
      (omega arith, (omega arith, tt))

dispatch-AllSettled_example :
    let start = new_dispatcher (status 500 ∷ []) in
    let d' = dispatch same title_of same hour (some (pager ∷ [])) (privileged_pod ∷ []) start in
    All (AllSettled same title_of same hour d'.log (privileged_pod ∷ [])) (pager ∷ [])
    × Exchange (OneOf same title_of same hour (pager ∷ []) (privileged_pod ∷ [])) start d'
dispatch-AllSettled_example =
    dispatch-AllSettled same title_of same hour 0 (pager ∷ []) (privileged_pod ∷ [])
      (new_dispatcher (status 500 ∷ [])) (omega arith) (new_dispatcher-IsValid (status 500 ∷ []))

abbrev chat : Subscriber
chat = record pager { url = "https://chat.example" }

offer_same_name_example :
    offer same title_of same hour chat privileged_pod
      (offer same title_of same hour pager privileged_pod (new_dispatcher []))
    ≡ offer same title_of same hour pager privileged_pod (new_dispatcher [])
unfolding matches severity_at_least severity_rank lookup send render_body is_accepted
offer_same_name_example =
    offer_same_name same title_of same hour pager chat privileged_pod (new_dispatcher []) refl refl
      refl refl

abbrev no_regex : String → Option (String → Bool)
no_regex p = some (λ x. x == p)

abbrev no_template : String → Option (Finding → Option String)
no_template p = none
