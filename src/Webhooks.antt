-- ===== src/Webhooks.antt =====
-- Which findings a scan sends to which subscribers: internal/webhooks/webhooks.go.
-- Regular expressions, templates and the default JSON body are parameters: `compile_regex` and
-- `parse_template` are what the Go packages make of a text, and `marshal` what they make of a finding.
-- `SHA-256` is the parameter `sha256`. A dispatcher holds the answers that its next requests get.
pub mod Delivery
pub mod Exchange
pub mod Attempts
pub mod Spacing
pub mod Reach
pub mod Config
pub mod Examples
use Prim.Native.String.{◌++◌ as append}
use fleetsweeper.Common.{
  ℕ, ◌-◌, Bool, true, false, not, List, [], ◌∷◌, Option, none, some, String, if◌then◌else◌, ltb,
  leb, ◌==◌, string_eq,
}
use fleetsweeper.Common.Map.{Map, lookup, insert, keep, remove}
use fleetsweeper.Store.Time.{Time}
pub use fleetsweeper.Report.{Finding}
unfoldable pub use fleetsweeper.Report.{
  severity_rank, severity_at_least, fingerprint, finding_fingerprint,
}

pub record Subscriber : Type 0 where
  pub name : String
  pub url : String
  pub min_severity : String
  pub scanner_regex : String
  pub cluster_regex : String
  pub headers : Map String String
  pub body_template : String
  pub content_type : String
  pub scanner_re : Option (String → Bool)
  pub cluster_re : Option (String → Bool)
  pub tmpl : Option (Finding → Option String)

-- One outbound request.
pub record Post : Type 0 where
  pub url : String
  pub content_type : String
  pub headers : Map String String
  pub body : String

-- What a request comes to: an error on the way, or a status.
pub data Response : Type 0 where
  failed : Response
  status : ℕ → Response

-- A send that the dispatcher has tried, and whether it was taken.
pub record Attempt : Type 0 where
  pub key : String
  pub at : Time
  pub post : Option Post
  pub answer : Option Response
  pub accepted : Bool

pub record Dispatcher : Type 0 where
  pub notified : Map String Time
  pub responses : List Response
  pub log : List Attempt

abbrev pub new_dispatcher : List Response → Dispatcher
new_dispatcher responses = record { notified = []; responses = responses; log = [] }

-- Six hours.
abbrev pub dedup_ttl : ℕ
dedup_ttl = 21_600_000_000_000

abbrev pub re_passes : Option (String → Bool) → String → Bool
re_passes none s = true
re_passes (some re) s = re s

-- The filters of a subscriber compose with AND.
unfoldable pub matches : Subscriber → Finding → Bool
unfolding severity_at_least
matches s f =
    if not (severity_at_least f.severity s.min_severity)
    then false
    else if not (re_passes s.scanner_re f.scanner)
    then false
    else re_passes s.cluster_re f.cluster

-- What is kept of an entry when the old ones go.
unfoldable pub is_recent : Time → String → Time → Bool
is_recent now k t = not (ltb dedup_ttl (now - t))

unfoldable pub gc_expired : Time → Dispatcher → Dispatcher
unfolding is_recent
gc_expired now d = record d { notified = keep (is_recent now) d.notified }

-- A status below 300 is a delivery; with no answer planned the receiver answers 200.
unfoldable pub is_accepted : List Response → Bool
is_accepted [] = true
is_accepted (failed ∷ rest) = false
is_accepted (status n ∷ rest) = ltb n 300

-- What the receiver answers a request.
abbrev pub next_answer : List Response → Response
next_answer [] = status 200
next_answer (r ∷ rest) = r

abbrev pub tail : List Response → List Response
tail [] = []
tail (r ∷ rest) = rest

abbrev pub map_values : (String → String) → Map String String → Map String String
map_values f [] = []
map_values f ((k, v) ∷ m) = (k, f v) ∷ map_values f m

module _ (sha256 : String → String) where
  unfoldable pub dedup_key : String → Finding → String
  dedup_key subscriber f = append subscriber (append "\0" (finding_fingerprint sha256 f))

module _ (marshal : Finding → String) (expand_env : String → String) where
  unfoldable pub render_body : Subscriber → Finding → Option String
  render_body s f = elim s.tmpl [
    | none ↦ some (marshal f)
    | some execute ↦ elim (execute f) [ none ↦ none | some text ↦ some (expand_env text) ]
  ]

  -- A text template that fails sends nothing; the attempt is logged all the same.
  unfoldable pub send : Time → String → Subscriber → Finding → Dispatcher → Bool × Dispatcher
  send now key s f d = elim (render_body s f) [
    | none ↦ (
      false,
      record d {
        log = record { key = key; at = now; post = none; answer = none; accepted = false } ∷ d.log;
      },
    )
    | some body ↦
        let post : Post = record {
          url = s.url;
          content_type = s.content_type;
          headers = map_values expand_env s.headers;
          body = body;
        } in
        let accepted = is_accepted d.responses in
        (
          accepted,
          record d {
            responses = tail d.responses;
            log =
                record {
                  key = key;
                  at = now;
                  post = some post;
                  answer = some (next_answer d.responses);
                  accepted = accepted;
                }
                ∷ d.log;
          },
        )
  ]

module _ (sha256 : String → String) (marshal : Finding → String)
    (expand_env : String → String) where
  -- The key is claimed before the request and given back if it fails.
  unfoldable pub offer : Time → Subscriber → Finding → Dispatcher → Dispatcher
  offer now s f d =
      if not (matches s f)
      then d
      else let key = dedup_key sha256 s.name f in
        elim (lookup key d.notified) [
          | some t ↦ d
          | none ↦
              let claimed = record d { notified = insert key now d.notified } in
              let (accepted, d') = send marshal expand_env now key s f claimed in
              if accepted then d' else record d' { notified = remove key d'.notified }
        ]

  unfoldable pub offer_all : Time → Subscriber → List Finding → Dispatcher → Dispatcher
  offer_all now s [] d = d
  offer_all now s (f ∷ fs) d = offer_all now s fs (offer now s f d)

  unfoldable pub offer_to_all : Time → List Subscriber → List Finding → Dispatcher → Dispatcher
  offer_to_all now [] fs d = d
  offer_to_all now (s ∷ ss) fs d = offer_to_all now ss fs (offer_all now s fs d)

  unfoldable pub dispatch : Time → Option (List Subscriber) → List Finding → Dispatcher → Dispatcher
  dispatch now none fs d = d
  dispatch now (some []) fs d = d
  dispatch now (some (s ∷ ss)) fs d = offer_to_all now (s ∷ ss) fs (gc_expired now d)
