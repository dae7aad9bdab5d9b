-- ===== src/Feeds/Alerts.antt =====
-- dashboard/src/app/api/visibility/alerts/route.ts
use pe_hackathon.Base.{
  ℕ, ◌||◌, Option, none, some, String, List, [], ◌∷◌, if◌then◌else◌, or_else, map, Bool, Outcome,
  returned, threw,
}
use pe_hackathon.Base.Store.{Store, get}
use pe_hackathon.Text.{truthy, template, show, equals}
use pe_hackathon.Env.{Env}
use pe_hackathon.Visibility.Graphql.{is_ok_status}
use pe_hackathon.Proxy.Status.{strip_slash, slice_to}

pub record AlertmanagerAlert : Type 0 where
  pub fingerprint : Option String
  pub state : Option String
  pub labels : Option (Store String)
  pub annotations : Option (Store String)
  pub starts_at : Option String

pub record ShownAlert : Type 0 where
  pub fingerprint : Option String
  pub state : Option String
  pub name : String
  pub severity : Option String
  pub instance_label : Option String
  pub job : Option String
  pub starts_at : Option String
  pub summary : Option String
  pub description : Option String
  pub labels : Store String

-- What Alertmanager answers; a body that is no array is `none`.
pub data AlertsReply : Type 0 where
  aborted : AlertsReply
  broken : (message : String) → AlertsReply
  answered :
      (status : ℕ)
      → (text : Outcome String) → (body : Outcome (Option (List AlertmanagerAlert))) → AlertsReply

-- `bad_gateway` has the status 502, the others 200.
pub data AlertsResponse : Type 0 where
  disabled : AlertsResponse
  bad_gateway : (error detail : String) → AlertsResponse
  shown : List ShownAlert → (source : String) → AlertsResponse
  unreachable : (error : String) → AlertsResponse

unfoldable pub alertmanager_base_url : Env → String
alertmanager_base_url process = elim (truthy (process "VISIBILITY_ALERTMANAGER_URL")) [
  | some u ↦ strip_slash u
  | none ↦ "http://127.0.0.1:9093"
]

unfoldable pub alerts_disabled : Env → Bool
alerts_disabled process =
    equals (process "VISIBILITY_ALERTMANAGER_DISABLED") "1"
    || equals (process "VISIBILITY_ALERTMANAGER_DISABLED") "true"

unfoldable pub show_alert : AlertmanagerAlert → ShownAlert
show_alert a =
    let labels = or_else a.labels [] in
    let annotations = or_else a.annotations [] in
    record {
      fingerprint = a.fingerprint;
      state = a.state;
      name = or_else (get labels "alertname") "(unknown)";
      severity = get labels "severity";
      instance_label = get labels "instance";
      job = get labels "job";
      starts_at = a.starts_at;
      summary = get annotations "summary";
      description = get annotations "description";
      labels = labels;
    }

shown_or_failed : String → Outcome (Option (List AlertmanagerAlert)) → AlertsResponse
shown_or_failed url (threw msg) = unreachable msg
shown_or_failed url (returned alerts) = shown (map show_alert (or_else alerts [])) url

refused_text : ℕ → Outcome String → AlertsResponse
refused_text status (threw msg) = unreachable msg
refused_text status (returned text) =
    bad_gateway (template ("Alertmanager returned " ∷ show status ∷ [])) (slice_to 500 text)

unfoldable pub read_alerts : String → AlertsReply → AlertsResponse
unfolding shown_or_failed refused_text
read_alerts url aborted = unreachable "Alertmanager request timed out (is it running on :9093?)"
read_alerts url (broken msg) = unreachable msg
read_alerts url (answered status text body) =
    if is_ok_status status then shown_or_failed url body else refused_text status text

-- The handler.
unfoldable pub get_alerts : Env → AlertsReply → AlertsResponse
get_alerts process reply =
    if alerts_disabled process
    then disabled
    else read_alerts (template (alertmanager_base_url process ∷ "/api/v2/alerts" ∷ [])) reply
