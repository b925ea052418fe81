-- ===== src/Server/ScanTrigger.antt =====
-- Scans that a signed webhook starts: internal/server/inbound_webhook.go, and startBackgroundScan and
-- resolveContexts of internal/server/handlers.go.
-- HMAC-SHA256, the JSON of a request, the contexts of the kubeconfig and the stored groups are parameters.
pub mod Signed
pub mod Examples
use fleetsweeper.Common.{
  ℕ, Bool, true, false, not, ◌&&◌, List, [], ◌∷◌, ◌++◌, Option, none, some, String, if◌then◌else◌,
  ◌==◌, string_eq, list_eq, nat_eq,
}
use fleetsweeper.Store.Sql.{Result, ok, err, err_not_found}
use fleetsweeper.Seal.{Bytes, prefix, strip_prefix, hex_encode, hex_decode}

pub record TriggerScanRequest : Type 0 where
  pub group : String
  pub contexts : List String

abbrev pub no_selection : TriggerScanRequest
no_selection = record { group = ""; contexts = [] }

pub data Contexts : Type 0 where
  contexts : List String → Contexts
  group_missing no_contexts resolve_failed : Contexts

abbrev pub group_contexts : Result (List String) → Contexts
group_contexts (ok clusters) = contexts clusters
group_contexts (err err_not_found) = group_missing
group_contexts (err e) = resolve_failed

-- What the server knows of its scans: whether one runs, and those it started, latest first.
pub record Scans : Type 0 where
  pub busy : Bool
  pub started : List (String × List String)

unfoldable pub start_background_scan : String → List String → Scans → Option String × Scans
start_background_scan id cs s =
    if s.busy then (none, s) else (some id, record { busy = true; started = (id, cs) ∷ s.started })

-- The end of a scan.
unfoldable pub finish_scan : Scans → Scans
finish_scan s = record s { busy = false }

pub data TriggerReply : Type 0 where
  status : ℕ → TriggerReply
  running : String → TriggerReply

abbrev pub started_reply : Option String × Scans → TriggerReply × Scans
started_reply (none, s) = (status 429, s)
started_reply (some id, s) = (running id, s)

module _ (hmac : Bytes → Bytes → Bytes) where
  unfoldable pub verify_webhook_signature : Bytes → Bytes → Bytes → Bool
  unfolding strip_prefix hex_decode
  verify_webhook_signature secret header body = elim (strip_prefix prefix header) [
    | none ↦ false
    | some digits ↦ elim (hex_decode digits) [
      | none ↦ false
      | some provided ↦ hmac secret body == provided
    ]
  ]

  unfoldable pub sign_webhook_body : Bytes → Bytes → Bytes
  unfolding hex_encode
  sign_webhook_body secret body = prefix ++ hex_encode (hmac secret body)

module _ (groups : String → Result (List String)) (kubeconfig : List String → Contexts)
    (demo : Bool) (demo_names : List String) where
  unfoldable pub resolve_contexts : TriggerScanRequest → Contexts
  resolve_contexts req =
      if demo && (req.group == "") && (req.contexts == [])
      then contexts demo_names
      else if not (req.group == "")
      then group_contexts (groups req.group)
      else kubeconfig req.contexts

  -- Once the contexts are resolved.
  unfoldable pub start_in : String → Contexts → Scans → TriggerReply × Scans
  unfolding start_background_scan
  start_in id group_missing s = (status 400, s)
  start_in id no_contexts s = (status 400, s)
  start_in id resolve_failed s = (status 500, s)
  start_in id (contexts []) s = (status 400, s)
  start_in id (contexts (c ∷ cs)) s = started_reply (start_background_scan id (c ∷ cs) s)

  module _ (hmac : Bytes → Bytes → Bytes) (decode : Bytes → Option TriggerScanRequest) where
    abbrev pub request_in : Bytes → Option TriggerScanRequest
    request_in [] = some no_selection
    request_in (b ∷ bs) = decode (b ∷ bs)

    -- Once the signature is verified.
    unfoldable pub trigger_scan : String → Bytes → Scans → TriggerReply × Scans
    unfolding resolve_contexts start_in
    trigger_scan id body s = elim (request_in body) [
      | none ↦ (status 400, s)
      | some req ↦ start_in id (resolve_contexts req) s
    ]

    unfoldable pub verified_trigger : Bytes → Bytes → String → Bytes → Scans → TriggerReply × Scans
    unfolding verify_webhook_signature trigger_scan
    verified_trigger secret header id body s =
        if not (verify_webhook_signature hmac secret header body)
        then (status 401, s)
        else trigger_scan id body s

    -- A body that cannot be read, or is too large, is none.
    unfoldable pub handle_webhook_scan_trigger :
        Bytes → Bytes → String → Option Bytes → Scans → TriggerReply × Scans
    unfolding verified_trigger
    handle_webhook_scan_trigger secret header id body s =
        if secret == [] then (status 404, s) else elim body [
          | none ↦ (status 400, s)
          | some bytes ↦ verified_trigger secret header id bytes s
        ]
