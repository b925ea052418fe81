-- ===== src/Server/AlertHandlers.antt =====
-- The handlers of inbound alerts: internal/server/alertmanager_handler.go.
-- Headers, secrets and numbers of a query are lists of code points. A body is what it decodes to, of which
-- stand the fields that the handler reads; the counter of received alerts grows with the stored ones.
pub mod Bearer
pub mod Received
pub mod Numbers
pub mod Visible
pub mod Examples
use fleetsweeper.Common.{
  ℕ, zero, suc, ◌+◌, ◌-◌, ◌*◌, Bool, true, false, not, ◌&&◌, ◌||◌, List, [], ◌∷◌, Option, none,
  some, String, if◌then◌else◌, ltb, leb, eqb, ◌==◌, string_eq, list_eq, nat_eq, length, contains,
  map, filter,
}
use fleetsweeper.Common.Integers.{ℤ, pos}
use fleetsweeper.Common.Map.{Map, lookup, insert}
use fleetsweeper.Store.Time.{Time}
use fleetsweeper.Store.Sql.{Result, ok, err, Conn}
use fleetsweeper.Store.Acks.{AckRecord, AckTable, list_acks}
use fleetsweeper.Store.ApiKeys.{role_admin, role_operator}
use fleetsweeper.Store.Alerts.{AlertRecord, AlertTable, AlertListOptions, upsert_alert, list_alerts}
use fleetsweeper.Store.Tags.{TagTable}
use fleetsweeper.Server.Auth.Actors.{Actor, allows_cluster}
use fleetsweeper.Server.Auth.Bearer.{Text}
use fleetsweeper.Server.TagFilter.{value_or_empty, parse_tag_filter}

pub record AlertManagerAlert : Type 0 where
  pub status : String
  pub labels : Map String String
  pub annotations : Map String String
  pub starts_at : Time
  pub ends_at : Time
  pub generator_url : String
  pub fingerprint : String

pub record AlertManagerPayload : Type 0 where
  pub version : String
  pub status : String
  pub receiver : String
  pub common_labels : Map String String
  pub common_annotations : Map String String
  pub alerts : List AlertManagerAlert

pub data AlertBody : Type 0 where
  unreadable malformed : AlertBody
  payload : AlertManagerPayload → AlertBody

-- `maps.Copy`
unfoldable pub copy_onto : Map String String → Map String String → Map String String
copy_onto out [] = out
copy_onto out ((k, v) ∷ rest) = copy_onto (insert k v out) rest

unfoldable pub merge_string_maps : Map String String → Map String String → Map String String
unfolding copy_onto
merge_string_maps base overlay = copy_onto (copy_onto [] base) overlay

unfoldable pub first_non_empty : List String → String
first_non_empty [] = ""
first_non_empty (v ∷ vs) = let rest = first_non_empty vs in if not (v == "") then v else rest

unfoldable pub build_alert_record :
    AlertManagerAlert → Map String String → Map String String → Time → AlertRecord
unfolding merge_string_maps first_non_empty
build_alert_record a common_labels common_ann now =
    let labels = merge_string_maps common_labels a.labels in
    let ann = merge_string_maps common_ann a.annotations in
    record {
      fingerprint = a.fingerprint;
      cluster = value_or_empty (lookup "cluster" labels);
      status = first_non_empty (a.status ∷ "firing" ∷ []);
      alert_name = value_or_empty (lookup "alertname" labels);
      severity = value_or_empty (lookup "severity" labels);
      summary = value_or_empty (lookup "summary" ann);
      starts_at = a.starts_at;
      ends_at = a.ends_at;
      received_at = now;
      labels = labels;
      annotations = ann;
      generator_url = a.generator_url;
    }

-- What follows a prefix.
unfoldable pub strip_prefix : Text → Text → Option Text
strip_prefix [] t = some t
strip_prefix (p ∷ ps) [] = none
strip_prefix (p ∷ ps) (c ∷ cs) = let rest = strip_prefix ps cs in if eqb p c then rest else none

abbrev pub bearer_prefix : Text
bearer_prefix = b'B' ∷ b'e' ∷ b'a' ∷ b'r' ∷ b'e' ∷ b'r' ∷ b' ' ∷ []

unfoldable pub verify_bearer : Text → Text → Bool
unfolding strip_prefix
verify_bearer header want = if want == [] then false else elim (strip_prefix bearer_prefix header) [
  | none ↦ false
  | some got ↦ if not (eqb (length got) (length want)) then false else got == want
]

pub record AlertEvent : Type 0 where
  pub fingerprint : String
  pub cluster : String
  pub status : String
  pub alert_name : String
  pub severity : String

abbrev pub event_of : AlertRecord → AlertEvent
event_of r = record {
  fingerprint = r.fingerprint;
  cluster = r.cluster;
  status = r.status;
  alert_name = r.alert_name;
  severity = r.severity;
}

-- How many alerts are stored, and the events that tell of them.
abbrev pub note_stored : AlertRecord → Result (Unit {0}) → ℕ × List AlertEvent → ℕ × List AlertEvent
note_stored r (ok done) (n, events) = (suc n, event_of r ∷ events)
note_stored r (err e) (n, events) = (n, events)

unfoldable pub store_alerts :
    Time
    → AlertManagerPayload
    → List AlertManagerAlert
    → Conn AlertTable
    → (ℕ × List AlertEvent) × Conn AlertTable
unfolding build_alert_record upsert_alert
store_alerts now p [] c = ((0, []), c)
store_alerts now p (a ∷ more) c =
    let r = build_alert_record a p.common_labels p.common_annotations now in
    let (result, c') = upsert_alert now r c in
    let (told, c'') = store_alerts now p more c' in (note_stored r result told, c'')

pub data WebhookReply : Type 0 where
  status : ℕ → WebhookReply
  -- how many alerts came, how many were stored with which events, the receiver and the status
  accepted : ℕ → ℕ → List AlertEvent → String → String → WebhookReply

abbrev pub told_of :
    AlertManagerPayload → (ℕ × List AlertEvent) × Conn AlertTable → WebhookReply × Conn AlertTable
told_of p ((n, events), c) = (accepted (length p.alerts) n events p.receiver p.status, c)

unfoldable pub receive : Time → AlertBody → Conn AlertTable → WebhookReply × Conn AlertTable
unfolding store_alerts
receive now unreadable c = (status 400, c)
receive now malformed c = (status 400, c)
receive now (payload p) c =
    if not (p.version == "") && not (p.version == "4")
    then (status 400, c)
    else told_of p (store_alerts now p p.alerts c)

unfoldable pub handle_alert_manager_webhook :
    Text → Text → Time → AlertBody → Conn AlertTable → WebhookReply × Conn AlertTable
unfolding verify_bearer receive
handle_alert_manager_webhook secret header now body c =
    if secret == []
    then (status 404, c)
    else if not (verify_bearer header secret)
    then (status 401, c)
    else receive now body c

-- The digits that are left, after a number that does not exceed the ceiling.
unfoldable pub parse_digits : ℕ → ℕ → Text → Option ℕ
parse_digits ceiling n [] = if eqb n 0 then none else some n
parse_digits ceiling n (c ∷ cs) =
    let m = n * 10 + (c - b'0') in
    let rest = parse_digits ceiling m cs in
    if ltb c b'0' || ltb b'9' c then none else if ltb ceiling m then some ceiling else rest

unfoldable pub parse_positive_int : Text → ℕ → Option ℕ
unfolding parse_digits
parse_positive_int s ceiling = parse_digits ceiling 0 s

module _ (members : String → List String) where
  -- Does a scoped actor see an alert of the cluster?
  abbrev pub sees : Actor → String → Bool
  sees a cluster =
      if cluster == "" && not (a.role == role_operator)
      then false
      else if not (cluster == "") && not (allows_cluster a cluster (some members))
      then false
      else true

  unfoldable pub filter_alerts_by_actor : Option Actor → List AlertRecord → List AlertRecord
  unfolding allows_cluster
  filter_alerts_by_actor none alerts = alerts
  filter_alerts_by_actor (some a) alerts =
      if a.role == role_admin then alerts else filter (λ r. sees a r.cluster) alerts

-- The query of a listing; an instant that cannot be read is none.
pub record AlertQuery : Type 0 where
  pub cluster : String
  pub status : String
  pub severity : String
  pub limit : Text
  pub since : Option Time
  pub tags : List String

abbrev pub limit_or_zero : Option ℕ → ℤ
limit_or_zero none = pos 0
limit_or_zero (some n) = pos n

unfoldable pub options_of : AlertQuery → AlertListOptions
unfolding parse_positive_int
options_of q = record {
  limit = limit_or_zero (parse_positive_int q.limit 1000);
  cluster = q.cluster;
  status = q.status;
  severity = q.severity;
  since = elim q.since [ none ↦ 0 | some t ↦ t ];
}

abbrev pub passes_tags : (String → Bool) → AlertRecord → Bool
passes_tags allows al = al.cluster == "" || allows al.cluster

-- A filter that cannot be read keeps every alert.
abbrev pub filtered :
    List AlertRecord → Result (String → Bool) × Conn TagTable → List AlertRecord × Conn TagTable
filtered alerts (ok allows, c) = (filter (passes_tags allows) alerts, c)
filtered alerts (err e, c) = (alerts, c)

unfoldable pub filter_by_tags :
    List String → List AlertRecord → Conn TagTable → List AlertRecord × Conn TagTable
unfolding parse_tag_filter
filter_by_tags [] alerts c = (alerts, c)
filter_by_tags (t ∷ ts) alerts c = filtered alerts (parse_tag_filter (t ∷ ts) c)

-- The fingerprints of the acks in force; none if they cannot be read.
abbrev pub acked_fingerprints : Result (List AckRecord) → List String
acked_fingerprints (ok acks) = map (λ a. a.fingerprint) acks
acked_fingerprints (err e) = []

pub record AlertView : Type 0 where
  pub alert : AlertRecord
  pub acked : Bool

abbrev pub view_of : List String → AlertRecord → AlertView
view_of acked al = record { alert = al; acked = contains acked al.fingerprint }

pub record AlertStores : Type 0 where
  pub alerts : Conn AlertTable
  pub tags : Conn TagTable
  pub acks : Conn AckTable

pub data AlertsReply : Type 0 where
  failure : ℕ → AlertsReply
  alerts_listed : List AlertView → ℕ → AlertsReply

abbrev pub alerts_reply : List AlertView → AlertsReply
alerts_reply views = alerts_listed views (length views)

-- After the read of the alerts.
unfoldable pub alerts_found :
    (String → List String)
    → Time
    → Option Actor
    → AlertQuery
    → AlertStores
    → Result (List AlertRecord) × Conn AlertTable
    → AlertsReply × AlertStores
unfolding filter_alerts_by_actor filter_by_tags list_acks
alerts_found members now actor q s (err e, alerts) = (failure 500, record s { alerts = alerts })
alerts_found members now actor q s (ok rs, alerts) =
    let (left, tags) = filter_by_tags q.tags (filter_alerts_by_actor members actor rs) s.tags in
    let (acks, conn) = list_acks now s.acks in
    (
      alerts_reply (map (view_of (acked_fingerprints acks)) left),
      record { alerts = alerts; tags = tags; acks = conn },
    )

unfoldable pub handle_list_alerts :
    (String → List String)
    → Time
    → Option Actor
    → AlertQuery
    → AlertStores
    → AlertsReply × AlertStores
unfolding list_alerts options_of alerts_found
handle_list_alerts members now actor q s =
    alerts_found members now actor q s (list_alerts (options_of q) s.alerts)
