-- ===== src/Server/AlertHandlers/Received.antt =====
-- What a delivery leaves in the table of alerts.
use fleetsweeper.Common.{
  ◌≡◌, ◌≢◌, refl, ◌∙◌, ap, true, false, List, [], ◌∷◌, String, arith, Bool-cases, Option-cases,
  Option, none, some, inl, inr, ◌==◌, string_eq, eq_iff, ◌⊎◌, ◌++◌, not, ◌&&◌, length, list_eq,
  nat_eq, list_beq_iff, if◌then◌else◌, ℕ, suc,
}
use fleetsweeper.Common.Map.{Map, lookup, insert, lookup-insert}
use fleetsweeper.Store.Tags.Grouping.{or_else}
use fleetsweeper.Server.TagFilter.{value_or_empty}
use fleetsweeper.Store.Time.{Time, is_zero}
use fleetsweeper.Store.Sql.{Result, ok, err, Conn, err_store}
use fleetsweeper.Store.Alerts.{AlertRecord, AlertTable, upsert_alert, with_received_at}
use fleetsweeper.Store.Alerts.Upserts.{of_table, stored, upsert_alert-get_alert}
use fleetsweeper.Server.Auth.Bearer.{Text}
use fleetsweeper.Server.AlertHandlers.{
  AlertManagerAlert, AlertManagerPayload, copy_onto, merge_string_maps, first_non_empty,
  build_alert_record, store_alerts, receive, payload, WebhookReply, status, accepted, bearer_prefix,
  strip_prefix, verify_bearer, handle_alert_manager_webhook,
}

verify_bearer-prefix :
    (secret : Text) → secret ≢ [] → verify_bearer (bearer_prefix ++ secret) secret ≡ true
unfolding verify_bearer strip_prefix
verify_bearer-prefix secret given =
    ground (arith, list_beq_iff secret [], list_beq_iff secret secret)

-- The value that a map of labels has for a key; of two the last counts.
abbrev pub last_value : String → Map String String → Option String
last_value k [] = none
last_value k ((j, v) ∷ m) = or_else (last_value k m) (if j == k then some v else none)

-- An alert's own labels lie over the common ones.
abbrev pub laid_over : Map String String → Map String String → String → Option String
laid_over common own k = or_else (last_value k own) (last_value k common)

abbrev pub text_of : Option String → String
text_of none = ""
text_of (some v) = v

lookup-copy_onto :
    (k : String) (m out : Map String String)
    → lookup k (copy_onto out m) ≡ or_else (last_value k m) (lookup k out)
unfolding copy_onto
lookup-copy_onto k [] out = refl
lookup-copy_onto k ((j, v) ∷ m) out =
    ground (arith, lookup-copy_onto k m (insert j v out), lookup-insert j k v out)

lookup-merge_string_maps :
    (k : String) (base overlay : Map String String)
    → lookup k (merge_string_maps base overlay) ≡ laid_over base overlay k
unfolding merge_string_maps lookup
lookup-merge_string_maps k base overlay =
    ground (arith, lookup-copy_onto k overlay (copy_onto [] base), lookup-copy_onto k base [])

-- The last alert with a fingerprint.
abbrev pub last_alert : String → List AlertManagerAlert → Option AlertManagerAlert
last_alert k [] = none
last_alert k (a ∷ more) = or_else (last_alert k more) (if a.fingerprint == k then some a else none)

-- What is kept of an alert of a delivery.
pub record Kept (now : Time) (p : AlertManagerPayload) (a : AlertManagerAlert) (r : AlertRecord)
    : Type 0 where
  pub fingerprint : r.fingerprint ≡ a.fingerprint
  pub cluster : r.cluster ≡ text_of (laid_over p.common_labels a.labels "cluster")
  pub status : r.status ≡ (if a.status == "" then "firing" else a.status)
  pub alert_name : r.alert_name ≡ text_of (laid_over p.common_labels a.labels "alertname")
  pub severity : r.severity ≡ text_of (laid_over p.common_labels a.labels "severity")
  pub summary : r.summary ≡ text_of (laid_over p.common_annotations a.annotations "summary")
  pub times : (r.starts_at ≡ a.starts_at) × (r.ends_at ≡ a.ends_at) × (r.received_at ≡ now)
  pub labels : (k : String) → lookup k r.labels ≡ laid_over p.common_labels a.labels k
  pub annotations :
      (k : String) → lookup k r.annotations ≡ laid_over p.common_annotations a.annotations k
  pub generator_url : r.generator_url ≡ a.generator_url

value_or_empty_lem : (o : Option String) → value_or_empty o ≡ text_of o
value_or_empty_lem none = refl
value_or_empty_lem (some v) = refl

looked_up :
    (k : String) (base overlay : Map String String)
    → value_or_empty (lookup k (merge_string_maps base overlay))
      ≡ text_of (laid_over base overlay k)
looked_up k base overlay =
    value_or_empty_lem (lookup k (merge_string_maps base overlay))
    ∙ ap text_of (lookup-merge_string_maps k base overlay)

module _ (now : Time) (p : AlertManagerPayload) where
  abbrev built : AlertManagerAlert → AlertRecord
  built a = build_alert_record a p.common_labels p.common_annotations now

  -- What a read of a fingerprint gives after a delivery: the last of its alerts with the fingerprint, or what
  -- it gave before.
  abbrev read_after : String → List AlertManagerAlert → Result AlertRecord → Result AlertRecord
  read_after k [] before = before
  read_after k (a ∷ more) before =
      read_after k more (if a.fingerprint == k then ok (built a) else before)

  built-Kept : (a : AlertManagerAlert) → Kept now p a (built a)
  unfolding build_alert_record first_non_empty
  built-Kept a = record {
    fingerprint = refl;
    cluster = looked_up "cluster" p.common_labels a.labels;
    status = ground arith;
    alert_name = looked_up "alertname" p.common_labels a.labels;
    severity = looked_up "severity" p.common_labels a.labels;
    summary = looked_up "summary" p.common_annotations a.annotations;
    times = (refl, refl, refl);
    labels = λ k. lookup-merge_string_maps k p.common_labels a.labels;
    annotations = λ k. lookup-merge_string_maps k p.common_annotations a.annotations;
    generator_url = refl;
  }

  -- A read after the delivery, by the last alert with its fingerprint and by a read before.
  abbrev pub Reads : Option AlertManagerAlert → Result AlertRecord → Result AlertRecord → Type 0
  Reads none before after = after ≡ before
  Reads (some a) before after = (r : AlertRecord) × ((after ≡ ok r) × Kept now p a r)

  read_after-Reads :
      (k : String) (alerts : List AlertManagerAlert) (before after : Result AlertRecord)
      → after ≡ read_after k alerts before
      → Reads (last_alert k alerts) before after
  read_after-Reads k [] before after e = e
  read_after-Reads k (a ∷ more) before after e =
      let later =
        read_after-Reads k more (if a.fingerprint == k then ok (built a) else before) after e in
      elim (Option-cases (last_alert k more)) [
        | inr (b, f) ↦ rw f (rw f at later)
        | inl f ↦ elim (Bool-cases (a.fingerprint == k)) [
          | inl t ↦ rw (f, t) (built a, (rw (f, t) at later, built-Kept a))
          | inr t ↦ rw (f, t) (rw (f, t) at later)
        ]
      ]

  -- How many alerts have a fingerprint.
  abbrev pub with_fingerprint : List AlertManagerAlert → ℕ
  with_fingerprint [] = 0
  with_fingerprint (a ∷ more) =
      if a.fingerprint == "" then with_fingerprint more else suc (with_fingerprint more)

  with_received_at-built : (a : AlertManagerAlert) → with_received_at now (built a) ≡ built a
  unfolding with_received_at build_alert_record is_zero
  with_received_at-built a = elim (Bool-cases (is_zero now)) [
    | inl z ↦ rw (with_received_at, z) refl
    | inr z ↦ rw (with_received_at, z) refl
  ]

  upserted_conn :
      (r : AlertRecord) (t : AlertTable)
      → (upsert_alert now r (of_table t)).1 ≡ of_table (upsert_alert now r (of_table t)).1.table
  unfolding upsert_alert
  upserted_conn r t = elim (Bool-cases (r.fingerprint == "")) [
    | inl e ↦ rw e refl
    | inr e ↦ rw e refl
  ]

  stored_one :
      (a : AlertManagerAlert) (k : String) (t : AlertTable)
      → k ≢ ""
      → stored k (upsert_alert now (built a) (of_table t)).1.table
        ≡ (if a.fingerprint == k then ok (built a) else stored k t)
  unfolding upsert_alert build_alert_record
  stored_one a k t h = elim (Bool-cases (a.fingerprint == "")) [
    | inl e ↦
        let other : (a.fingerprint == k) ≡ false =
          ground (arith, h, e, eq_iff a.fingerprint "", eq_iff a.fingerprint k) in
        rw (e, other) refl
    | inr e ↦
        upsert_alert-get_alert now (built a) k t (ground (arith, e, eq_iff a.fingerprint ""))
        ∙ ap (λ r. if a.fingerprint == k then ok r else stored k t) (with_received_at-built a)
  ]

  -- A save of a healthy table works unless the alert has no fingerprint.
  upserted_result :
      (a : AlertManagerAlert) (t : AlertTable)
      → (upsert_alert now (built a) (of_table t)).0
        ≡ (if a.fingerprint == "" then err err_store else ok tt)
  unfolding upsert_alert build_alert_record
  upserted_result a t = elim (Bool-cases (a.fingerprint == "")) [
    | inl e ↦ rw e refl
    | inr e ↦ rw e refl
  ]

  store_alerts-stored :
      (alerts : List AlertManagerAlert) (k : String) (t : AlertTable)
      → k ≢ ""
      → stored k (store_alerts now p alerts (of_table t)).1.table ≡ read_after k alerts (stored k t)
  unfolding store_alerts
  store_alerts-stored [] k t h = refl
  store_alerts-stored (a ∷ more) k t h =
      ap (λ c. stored k (store_alerts now p more c).1.table) (upserted_conn (built a) t)
      ∙ store_alerts-stored more k (upsert_alert now (built a) (of_table t)).1.table h
      ∙ ap (read_after k more) (stored_one a k t h)

  store_alerts-count :
      (alerts : List AlertManagerAlert) (t : AlertTable)
      → (store_alerts now p alerts (of_table t)).0.0 ≡ with_fingerprint alerts
  unfolding store_alerts
  store_alerts-count [] t = refl
  store_alerts-count (a ∷ more) t =
      rw (upserted_conn (built a) t, upserted_result a t)
        (elim (Bool-cases (a.fingerprint == "")) [
          | inl e ↦ rw e (store_alerts-count more _)
          | inr e ↦ rw e (ap suc (store_alerts-count more _))
        ])

  -- An answer to the delivery, on a table of alerts.
  abbrev pub Received : AlertTable → WebhookReply × Conn AlertTable → Type 0
  Received t (status n, c) = ⊥
  Received t (accepted came n events receiver state, c) =
      (came ≡ length p.alerts)
      × (n ≡ with_fingerprint p.alerts)
      × ((k : String) → k ≢ "" → Reads (last_alert k p.alerts) (stored k t) (stored k c.table))

  -- A delivery with the right secret and a version that is 4 or left out is accepted while the database
  -- answers. It stores every alert that has a fingerprint and no other: a read of a fingerprint then gives
  -- the last of the delivery's alerts with it, every label and annotation of its own in place of the common
  -- one, and what it gave before if the delivery has none.
  pub handle_alert_manager_webhook-Received :
      (secret : Text) (t : AlertTable)
      → secret ≢ []
      → (p.version ≡ "") ⊎ (p.version ≡ "4")
      → Received t (
          handle_alert_manager_webhook secret
            (bearer_prefix ++ secret)
            now
            (payload p)
            (of_table t))
  unfolding handle_alert_manager_webhook receive
  handle_alert_manager_webhook-Received secret t given version =
      let missing : (secret == []) ≡ false = ground (arith, given, list_beq_iff secret []) in
      let known : (not (p.version == "") && not (p.version == "4")) ≡ false =
        ground (arith, version, eq_iff p.version "", eq_iff p.version "4") in
      rw (verify_bearer-prefix secret given, missing, known)
        (
          refl,
          store_alerts-count p.alerts t,
          λ k h. read_after-Reads k p.alerts _ _ (store_alerts-stored p.alerts k t h),
        )
