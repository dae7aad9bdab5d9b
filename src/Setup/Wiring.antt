-- ===== src/Setup/Wiring.antt =====
-- setup-railway.js: what the variables of the services are made from, and those that several services share.
use pe_hackathon.Base.{
  Bool, not, ◌&&◌, Option, none, some, String, List, [], ◌∷◌, ◌++◌, if◌then◌else◌, has, is_some,
}
use pe_hackathon.Base.Store.{Store}
use pe_hackathon.Text.{is_empty}
use pe_hackathon.Setup.Configure.{is_set}
use pe_hackathon.Setup.Plugins.{
  Value, literal, reference, setting, find_postgres_service_name, find_redis_service_name,
  find_kafka_service_name, find_dashboard_postgres_service_name, kafka_bootstrap_ref,
}

abbrev pub Variables : Type 0
Variables = List (String × Value)

-- What the variables are made from.
pub record Wiring : Type 0 where
  pub env : Store String
  pub names : List String
  pub project_id : String
  pub environment_id : String
  pub postgres : String
  pub redis : Option String
  pub kafka : Option String
  pub dashboard_postgres : Option String

abbrev pub plain : String → Value
plain s = literal s ∷ []

abbrev pub when : Bool → Variables → Variables
when b vs = if b then vs else []

abbrev pub with_value : String → Option Value → Variables
with_value key none = []
with_value key (some v) = (key, v) ∷ []

abbrev pub db_url_key : Wiring → String
db_url_key w =
    if is_set w.env "SYNC_VARIABLES_USE_PUBLIC_DATABASE_URL"
    then "DATABASE_PUBLIC_URL"
    else "DATABASE_URL"

abbrev pub log_ingest_token : Wiring → String
log_ingest_token w = setting w.env "LOG_INGEST_TOKEN"

unfoldable pub log_ingest_url : Wiring → Option Value
log_ingest_url w =
    if has w.names "dashboard-backend"
      && not (is_some w.kafka)
      && not (is_empty (log_ingest_token w))
    then some (
        if is_set w.env "LOG_INGEST_USE_PRIVATE_URL"
        then literal "http://"
          ∷ reference "dashboard-backend" "RAILWAY_PRIVATE_DOMAIN"
          ∷ literal ":"
          ∷ reference "dashboard-backend" "PORT"
          ∷ literal "/api/ingest"
          ∷ []
        else literal "https://"
          ∷ reference "dashboard-backend" "RAILWAY_PUBLIC_DOMAIN"
          ∷ literal "/api/ingest"
          ∷ [])
    else none

abbrev pub load_test_bypass : Wiring → String
load_test_bypass w =
    let set = setting w.env "LOAD_TEST_BYPASS_TOKEN" in
    if is_empty set then "pe-hackathon-k6-edge-bypass" else set

unfoldable pub kafka_servers : Wiring → Variables
kafka_servers w = elim w.kafka [
  | none ↦ []
  | some kafka ↦ ("KAFKA_BOOTSTRAP_SERVERS", kafka_bootstrap_ref w.env kafka) ∷ []
]

unfoldable pub rate_limit_storage : Wiring → Value
rate_limit_storage w = elim w.redis [
  | none ↦ plain "memory://"
  | some redis ↦ reference redis "REDIS_URL" ∷ []
]

unfoldable pub log_ingest : Wiring → Variables
log_ingest w = elim (log_ingest_url w) [
  | none ↦ []
  | some url ↦ ("LOG_INGEST_URL", url) ∷ ("LOG_INGEST_TOKEN", plain (log_ingest_token w)) ∷ []
]

unfoldable pub url_shortener_base : Wiring → Variables
url_shortener_base w =
    ("PORT", plain "8080")
    ∷ ("DATABASE_URL", reference w.postgres (db_url_key w) ∷ [])
    ∷ ("FLASK_DEBUG", plain "false")
    ∷ ("KAFKA_LOG_TOPIC", plain "app-logs")
    ∷ ("RATE_LIMIT_STORAGE", rate_limit_storage w)
    ∷ (kafka_servers w
        ++ (log_ingest w ++ ("LOAD_TEST_BYPASS_TOKEN", plain (load_test_bypass w)) ∷ []))

unfoldable pub wiring_for : Store String → List String → String → String → String → Wiring
wiring_for env names project_id environment_id postgres = record {
  env = env;
  names = names;
  project_id = project_id;
  environment_id = environment_id;
  postgres = postgres;
  redis = find_redis_service_name env names;
  kafka = find_kafka_service_name env names;
  dashboard_postgres = find_dashboard_postgres_service_name env names postgres;
}

-- `none` where there is no Postgres service: then nothing is set.
unfoldable pub find_wiring : Store String → List String → String → String → Option Wiring
find_wiring env names project_id environment_id = elim (find_postgres_service_name env names) [
  | none ↦ none
  | some postgres ↦ some (wiring_for env names project_id environment_id postgres)
]
