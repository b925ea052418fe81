-- ===== src/Server/AckHandlers.antt =====
-- The handlers of acknowledgements: internal/server/acks_handler.go.
-- A request brings its fingerprint, its actor and what its body decodes to; `members` is the group lookup.
-- Written to the log is nothing that the model keeps.
pub mod Scoped
pub mod Deletion
pub mod Examples
use Prim.Native.String.{◌++◌ as append}
use fleetsweeper.Common.{
  ℕ, Bool, true, false, not, ◌||◌, List, [], ◌∷◌, Option, none, some, String, if◌then◌else◌, ◌==◌,
  string_eq,
}
use fleetsweeper.Common.Map.{Map, lookup}
use fleetsweeper.Report.{Finding}
use fleetsweeper.Store.Time.{Time}
use fleetsweeper.Store.Sql.{Result, ok, err, Conn, StoreError, err_not_found}
use fleetsweeper.Store.Acks.{AckRecord, AckTable, save_ack, get_ack, delete_ack, list_acks}
use fleetsweeper.Store.Alerts.{AlertRecord, AlertTable, get_alert}
use fleetsweeper.Server.Auth.Actors.{Actor, has_wildcard_scope, allows_cluster}

-- `snooze_until`: left out, no RFC 3339 text, or an instant.
pub data Snooze : Type 0 where
  permanent unreadable : Snooze
  until : Time → Snooze

pub record AckRequest : Type 0 where
  pub ack_by : String
  pub reason : String
  pub snooze_until : Snooze

-- A body that does not decode has been answered with the status that it carries.
pub data Body : Type 0 where
  no_body : Body
  undecodable : ℕ → Body
  decoded : AckRequest → Body

pub data Reply : Type 0 where
  status : ℕ → Reply
  created : AckRecord → Reply
  listing : List AckRecord → Reply

-- A cluster-less ack spans the fleet.
unfoldable pub allows_ack_cluster : Actor → (String → List String) → String → Bool
unfolding has_wildcard_scope allows_cluster
allows_ack_cluster actor members cluster =
    if cluster == "" || cluster == "fleet"
    then has_wildcard_scope actor
    else allows_cluster actor cluster (some members)

-- `writeStoreError` of internal/server/handlers.go.
abbrev pub store_error_status : StoreError → ℕ
store_error_status err_not_found = 404
store_error_status e = 500

abbrev pub no_request : AckRequest
no_request = record { ack_by = ""; reason = ""; snooze_until = permanent }

-- The record, unless its snooze cannot be read.
unfoldable pub fill_ack : Time → AckRequest → AckRecord → Option AckRecord
fill_ack now req base =
    let r = record base { ack_by = req.ack_by; reason = req.reason; created_at = now } in
    elim req.snooze_until [
      | permanent ↦ some r
      | unreadable ↦ none
      | until t ↦ some (record r { snooze_until = t })
    ]

abbrev pub saved : AckRecord → Result (Unit {0}) × Conn AckTable → Reply × Conn AckTable
saved r (ok done, c) = (created r, c)
saved r (err e, c) = (status 500, c)

unfoldable pub store_ack : Time → AckRequest → AckRecord → Conn AckTable → Reply × Conn AckTable
unfolding fill_ack save_ack
store_ack now req base c = elim (fill_ack now req base) [
  | none ↦ (status 400, c)
  | some r ↦ saved r (save_ack now r c)
]

-- `saveAck`
unfoldable pub reply_save_ack : Time → Body → AckRecord → Conn AckTable → Reply × Conn AckTable
unfolding store_ack
reply_save_ack now no_body base c = store_ack now no_request base c
reply_save_ack now (undecodable code) base c = (status code, c)
reply_save_ack now (decoded req) base c = store_ack now req base c

abbrev pub base_ack : String → String → String → String → AckRecord
base_ack fingerprint cluster scanner title = record {
  fingerprint = fingerprint;
  cluster = cluster;
  scanner = scanner;
  title = title;
  ack_by = "";
  reason = "";
  snooze_until = 0;
  created_at = 0;
}

-- The findings of the latest report by their fingerprints, or the error of building it. Without a scan there
-- are none.
unfoldable pub current_finding : Result (Map String Finding) → String → Result Finding
current_finding (err e) fp = err e
current_finding (ok findings) fp = elim (lookup fp findings) [
  | none ↦ err err_not_found
  | some f ↦ ok f
]

module _ (actor : Actor) (members : String → List String) (now : Time) where
  unfoldable pub guarded : Body → AckRecord → Conn AckTable → Reply × Conn AckTable
  unfolding allows_ack_cluster reply_save_ack
  guarded body base c =
      if not (allows_ack_cluster actor members base.cluster)
      then (status 403, c)
      else reply_save_ack now body base c

  unfoldable pub handle_create_ack :
      Result (Map String Finding) → String → Body → Conn AckTable → Reply × Conn AckTable
  unfolding current_finding guarded
  handle_create_ack report fp body c =
      if fp == "" then (status 400, c) else elim (current_finding report fp) [
        | err e ↦ (status (store_error_status e), c)
        | ok f ↦ guarded body (base_ack fp f.cluster f.scanner f.title) c
      ]

  abbrev pub source_of : AlertRecord → String
  source_of a = elim (lookup "source" a.labels) [
    | none ↦ "alertmanager"
    | some s ↦ if s == "" then "alertmanager" else s
  ]

  -- The answer for an alert that the store gave.
  abbrev pub alert_ack : String → AlertRecord → AckRecord
  alert_ack fp a = base_ack fp a.cluster (append "alert:" (source_of a)) a.alert_name

  unfoldable pub handle_ack_alert :
      String → Body → Conn AlertTable → Conn AckTable → Reply × (Conn AckTable × Conn AlertTable)
  unfolding get_alert guarded
  handle_ack_alert fp body alerts c =
      if fp == ""
      then (status 400, (c, alerts))
      else let (found, alerts') = get_alert fp alerts in
        elim found [
          | err e ↦ (status (store_error_status e), (c, alerts'))
          | ok a ↦ let (reply, c') = guarded body (alert_ack fp a) c in (reply, (c', alerts'))
        ]

  abbrev pub deleted : Result (Unit {0}) × Conn AckTable → Reply × Conn AckTable
  deleted (ok done, c) = (status 204, c)
  deleted (err e, c) = (status 500, c)

  -- After the read of the ack.
  unfoldable pub delete_found : String → Result AckRecord → Conn AckTable → Reply × Conn AckTable
  unfolding allows_ack_cluster delete_ack
  delete_found fp (err err_not_found) c = (status 204, c)
  delete_found fp (err e) c = (status 500, c)
  delete_found fp (ok r) c =
      if not (allows_ack_cluster actor members r.cluster)
      then (status 403, c)
      else deleted (delete_ack fp c)

  unfoldable pub handle_delete_ack : String → Conn AckTable → Reply × Conn AckTable
  unfolding get_ack delete_found
  handle_delete_ack fp c =
      if fp == ""
      then (status 400, c)
      else let (found, c') = get_ack now fp c in delete_found fp found c'

abbrev pub listed : Result (List AckRecord) × Conn AckTable → Reply × Conn AckTable
listed (ok rs, c) = (listing rs, c)
listed (err e, c) = (status 500, c)

unfoldable pub handle_list_acks : Time → Conn AckTable → Reply × Conn AckTable
unfolding list_acks
handle_list_acks now c = listed (list_acks now c)
