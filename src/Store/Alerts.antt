-- ===== src/Store/Alerts.antt =====
-- The table of inbound alerts: internal/store/alerts.go.
-- Labels and annotations stand as the maps that their JSON texts hold; the table has only what UpsertAlert
-- wrote there.
pub mod Upserts
use fleetsweeper.Common.{
  ℕ, Bool, true, false, not, ◌&&◌, ◌||◌, List, [], ◌∷◌, Option, none, some, String, if◌then◌else◌,
  ltb, leb, eqb, ◌==◌, string_eq, length,
}
use fleetsweeper.Common.Integers.{ℤ}
use fleetsweeper.Common.Map.{Map, lookup, insert, keep}
use fleetsweeper.Store.Time.{Time, is_zero}
use fleetsweeper.Store.Sql.{
  Sql, fail, statement, query, exec, pure, ◌>>=◌, err_store, err_query, err_not_found,
}
use fleetsweeper.Store.Listing.{page_of}
use fleetsweeper.Store.Audit.{nullable, null_text, limit_of_listing}

pub record AlertRecord : Type 0 where
  pub fingerprint : String
  pub cluster : String
  pub status : String
  pub alert_name : String
  pub severity : String
  pub summary : String
  pub starts_at : Time
  pub ends_at : Time
  pub received_at : Time
  pub labels : Map String String
  pub annotations : Map String String
  pub generator_url : String

-- The columns beside the fingerprint, the primary key.
pub record AlertRow : Type 0 where
  pub cluster : String
  pub status : String
  pub alert_name : String
  pub severity : Option String
  pub summary : Option String
  pub starts_at : Option Time
  pub ends_at : Option Time
  pub received_at : Time
  pub labels : Map String String
  pub annotations : Map String String
  pub generator_url : Option String

abbrev pub AlertTable : Type 0
AlertTable = Map String AlertRow

pub record AlertListOptions : Type 0 where
  pub limit : ℤ
  pub cluster : String
  pub status : String
  pub severity : String
  pub since : Time

unfoldable pub nullable_time : Time → Option Time
unfolding is_zero
nullable_time t = if is_zero t then none else some t

abbrev pub null_time : Option Time → Time
null_time none = 0
null_time (some t) = t

unfoldable pub alert_row : AlertRecord → AlertRow
unfolding nullable nullable_time
alert_row r = record {
  cluster = r.cluster;
  status = r.status;
  alert_name = r.alert_name;
  severity = nullable r.severity;
  summary = nullable r.summary;
  starts_at = nullable_time r.starts_at;
  ends_at = nullable_time r.ends_at;
  received_at = r.received_at;
  labels = r.labels;
  annotations = r.annotations;
  generator_url = nullable r.generator_url;
}

unfoldable pub scan_alert_row : String → AlertRow → AlertRecord
scan_alert_row fingerprint row = record {
  fingerprint = fingerprint;
  cluster = row.cluster;
  status = row.status;
  alert_name = row.alert_name;
  severity = null_text row.severity;
  summary = null_text row.summary;
  starts_at = null_time row.starts_at;
  ends_at = null_time row.ends_at;
  received_at = row.received_at;
  labels = row.labels;
  annotations = row.annotations;
  generator_url = null_text row.generator_url;
}

unfoldable pub with_received_at : Time → AlertRecord → AlertRecord
unfolding is_zero
with_received_at now r = if is_zero r.received_at then record r { received_at = now } else r

unfoldable pub upsert_alert : Time → AlertRecord → Sql AlertTable Unit
unfolding with_received_at alert_row exec
upsert_alert now r =
    if r.fingerprint == ""
    then fail err_store
    else exec (insert r.fingerprint (alert_row (with_received_at now r)))

abbrev pub alert_or_not_found : String → Option AlertRow → Sql AlertTable AlertRecord
alert_or_not_found fingerprint none = fail err_not_found
alert_or_not_found fingerprint (some row) = pure (scan_alert_row fingerprint row)

unfoldable pub get_alert : String → Sql AlertTable AlertRecord
unfolding query scan_alert_row ◌>>=◌
get_alert fingerprint = query err_query (lookup fingerprint) >>= alert_or_not_found fingerprint

-- An option that is empty asks for nothing. A NULL column equals nothing.
unfoldable pub alert_matches : AlertListOptions → AlertRow → Bool
unfolding is_zero
alert_matches o row =
    (o.cluster == "" || (row.cluster == o.cluster))
    && (o.status == "" || (row.status == o.status))
    && (o.severity == "" || elim row.severity [ none ↦ false | some s ↦ s == o.severity ])
    && (is_zero o.since || ltb o.since row.received_at)

unfoldable pub scan_alerts : AlertListOptions → AlertTable → List AlertRecord
unfolding alert_matches scan_alert_row
scan_alerts o [] = []
scan_alerts o ((fingerprint, row) ∷ rest) =
    let more = scan_alerts o rest in
    if alert_matches o row then scan_alert_row fingerprint row ∷ more else more

unfoldable pub list_alerts : AlertListOptions → Sql AlertTable (List AlertRecord)
unfolding query scan_alerts limit_of_listing
list_alerts o =
    query err_query
      (λ t. page_of (λ r. r.received_at) (limit_of_listing 200 o.limit) (scan_alerts o t))

unfoldable pub prune_alerts : Time → Sql AlertTable ℕ
unfolding statement
prune_alerts cutoff = statement err_store (λ t.
    let left = keep (λ fingerprint row. not (ltb row.received_at cutoff)) t in
    (length (keep (λ fingerprint row. ltb row.received_at cutoff) t), left))
