-- ===== src/Server/AlertHandlers/Examples.antt =====
-- Runs of the alert handlers.
use fleetsweeper.Common.{
  ◌≡◌, ◌≢◌, ◌⊎◌, refl, [], ◌∷◌, ◌++◌, none, some, String, string_eq, list_eq, nat_eq, inr, list_beq,
}
use fleetsweeper.Store.Alerts.{AlertRow}
use fleetsweeper.Store.Alerts.Upserts.{of_table}
use fleetsweeper.Server.Auth.Actors.{Actor}
use fleetsweeper.Server.Auth.Bearer.{Text}
use fleetsweeper.Server.AlertHandlers.{
  AlertManagerAlert, AlertManagerPayload, payload, status, bearer_prefix, AlertQuery, AlertStores,
  handle_alert_manager_webhook, handle_list_alerts, parse_positive_int,
}
use fleetsweeper.Server.AlertHandlers.Bearer.{Refused, handle_alert_manager_webhook-Refused}
use fleetsweeper.Server.AlertHandlers.Received.{Received, handle_alert_manager_webhook-Received}
use fleetsweeper.Server.AlertHandlers.Visible.{AllShown, handle_list_alerts-AllShown}

abbrev secret : Text
secret = b's' ∷ b'3' ∷ []

abbrev disk_full : String → AlertManagerAlert
disk_full fingerprint = record {
  status = "";
  labels = ("alertname", "DiskFull") ∷ ("cluster", "east") ∷ [];
  annotations = [];
  starts_at = 4;
  ends_at = 0;
  generator_url = "";
  fingerprint = fingerprint;
}

abbrev delivery : AlertManagerPayload
delivery = record {
  version = "4";
  status = "firing";
  receiver = "fleet";
  common_labels = ("severity", "warning") ∷ ("cluster", "all") ∷ [];
  common_annotations = [];
  alerts = disk_full "a1" ∷ disk_full "" ∷ [];
}

wrong_secret :
    (handle_alert_manager_webhook secret
      (bearer_prefix ++ (b's' ∷ []))
      9
      (payload delivery)
      (of_table [])).0
    ≡ status 401
unfolding handle_alert_manager_webhook list_beq
wrong_secret = refl

handle_alert_manager_webhook-Refused_example :
    Refused [] (handle_alert_manager_webhook secret [] 9 (payload delivery) (of_table []))
    ⊎ (secret ≢ []) × ([] ≡ bearer_prefix ++ secret)
handle_alert_manager_webhook-Refused_example =
    handle_alert_manager_webhook-Refused secret [] 9 (payload delivery) (of_table [])

handle_alert_manager_webhook-Received_example : Received 9 delivery [] (
    handle_alert_manager_webhook secret
      (bearer_prefix ++ secret)
      9
      (payload delivery)
      (of_table []))
handle_alert_manager_webhook-Received_example =
    handle_alert_manager_webhook-Received 9 delivery secret [] (λ e. cc) (inr refl)

abbrev viewer : Actor
viewer = record { id = "k3"; name = "east-view"; role = "viewer"; cluster_scope = "east" ∷ [] }

abbrev every_alert : AlertQuery
every_alert = record {
  cluster = "";
  status = "";
  severity = "";
  limit = [];
  since = none;
  tags = [];
}

abbrev alert_in : String → AlertRow
alert_in cluster = record {
  cluster = cluster;
  status = "firing";
  alert_name = "DiskFull";
  severity = none;
  summary = none;
  starts_at = none;
  ends_at = none;
  received_at = 7;
  labels = [];
  annotations = [];
  generator_url = none;
}

abbrev stores : AlertStores
stores = record {
  alerts = of_table (("a1", alert_in "east") ∷ ("a2", alert_in "west") ∷ ("a3", alert_in "") ∷ []);
  tags = record { table = []; faults = [] };
  acks = record { table = []; faults = [] };
}

handle_list_alerts-AllShown_example :
    AllShown
      (λ name. [])
      viewer
      (handle_list_alerts (λ name. []) 9 (some viewer) every_alert stores).0
handle_list_alerts-AllShown_example =
    handle_list_alerts-AllShown (λ name. []) viewer 9 every_alert stores

-- A number above the ceiling is cut, whatever follows its first digits.
cut_early : parse_positive_int (b'9' ∷ b'9' ∷ b'x' ∷ []) 50 ≡ some 50
unfolding parse_positive_int
cut_early = refl
