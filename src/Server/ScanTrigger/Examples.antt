-- ===== src/Server/ScanTrigger/Examples.antt =====
-- Webhooks that start scans, under a toy hash.
use fleetsweeper.Common.{
  ◌≡◌, refl, true, false, List, [], ◌∷◌, Option, none, some, String, list_eq, nat_eq, list_beq,
}
use fleetsweeper.Store.Sql.{Result, err, err_not_found}
use fleetsweeper.Seal.{Bytes, hex_value, hex_digit}
use fleetsweeper.Server.ScanTrigger.{
  TriggerScanRequest, Contexts, contexts, Scans, TriggerReply, status, running, sign_webhook_body,
  handle_webhook_scan_trigger,
}
use fleetsweeper.Server.ScanTrigger.Signed.{
  Only, SignedScan, handle_webhook_scan_trigger-SignedScan,
}

abbrev thirty_two : Bytes
thirty_two =
    1 ∷ 2 ∷ 3 ∷ 4 ∷ 5 ∷ 6 ∷ 7 ∷ 8 ∷ 9 ∷ 10 ∷ 11 ∷ 12 ∷ 13 ∷ 14 ∷ 15 ∷ 16 ∷ 17 ∷ 18 ∷ 19 ∷ 20 ∷ 21
    ∷ 22 ∷ 23 ∷ 24 ∷ 25 ∷ 26 ∷ 27 ∷ 28 ∷ 29 ∷ 30 ∷ 31 ∷ 32 ∷ []

abbrev toy_hmac : Bytes → Bytes → Bytes
toy_hmac key body = thirty_two

abbrev no_groups : String → Result (List String)
no_groups name = err err_not_found

abbrev every_context : List String → Contexts
every_context names = contexts ("east" ∷ "west" ∷ [])

abbrev no_json : Bytes → Option TriggerScanRequest
no_json body = none

abbrev idle : Scans
idle = record { busy = false; started = [] }

abbrev triggered : Bytes → TriggerReply × Scans
triggered header =
    handle_webhook_scan_trigger no_groups every_context false [] toy_hmac no_json (7 ∷ []) header
      "s1" (some []) idle

starts_every :
    triggered (sign_webhook_body toy_hmac (7 ∷ []) [])
    ≡ (running "s1", record { busy = true; started = ("s1", "east" ∷ "west" ∷ []) ∷ [] })
unfolding handle_webhook_scan_trigger sign_webhook_body list_beq hex_value hex_digit
starts_every = refl

unsigned_refused : triggered [] ≡ (status 401, idle)
unfolding handle_webhook_scan_trigger list_beq
unsigned_refused = refl

handle_webhook_scan_trigger-SignedScan_example :
    Only idle
      (SignedScan no_groups every_context false [] toy_hmac no_json
        (7 ∷ [])
        (sign_webhook_body toy_hmac (7 ∷ []) [])
        "s1"
        idle
        (some []))
      (triggered (sign_webhook_body toy_hmac (7 ∷ []) []))
handle_webhook_scan_trigger-SignedScan_example =
    handle_webhook_scan_trigger-SignedScan no_groups every_context false [] toy_hmac no_json
      (7 ∷ []) (sign_webhook_body toy_hmac (7 ∷ []) []) "s1" idle (some [])
