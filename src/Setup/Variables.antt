-- ===== src/Setup/Variables.antt =====
-- setup-railway.js: the variables that syncInternalDatabaseVariables sets, service by service.
use pe_hackathon.Base.{
  Bool, not, ◌&&◌, ◌||◌, Option, none, some, String, List, [], ◌∷◌, ◌++◌, ◌==◌, if◌then◌else◌,
  or_else, has,
}
use pe_hackathon.Base.Store.{Store, get}
use pe_hackathon.Text.{is_empty, trim, to_lower}
use pe_hackathon.Heartbeat.{strip_slashes}
use pe_hackathon.Setup.Plugins.{Value, literal, reference, setting}
use pe_hackathon.Setup.Wiring.{
  Variables, Wiring, plain, when, with_value, db_url_key, log_ingest_token, load_test_bypass,
  kafka_servers, url_shortener_base,
}

unfoldable pub load_balancer_vars : Wiring → Variables
load_balancer_vars w =
    ("URL_SHORTENER_A_HOST", reference "url-shortener-a" "RAILWAY_PRIVATE_DOMAIN" ∷ [])
    ∷ ("URL_SHORTENER_B_HOST", reference "url-shortener-b" "RAILWAY_PRIVATE_DOMAIN" ∷ [])
    ∷ ("URL_SHORTENER_A_PORT", reference "url-shortener-a" "PORT" ∷ [])
    ∷ ("URL_SHORTENER_B_PORT", reference "url-shortener-b" "PORT" ∷ [])
    ∷ ("LOAD_TEST_BYPASS_TOKEN", plain (load_test_bypass w))
    ∷ []

-- The public address of the load balancer, or else of the first replica, if there is one of them.
unfoldable pub load_test_target : Wiring → Option Value
load_test_target w =
    if has w.names "load-balancer"
    then some (literal "https://" ∷ reference "load-balancer" "RAILWAY_PUBLIC_DOMAIN" ∷ [])
    else if has w.names "url-shortener-a"
    then some (literal "https://" ∷ reference "url-shortener-a" "RAILWAY_PUBLIC_DOMAIN" ∷ [])
    else none

unfoldable pub dashboard_backend_vars : Wiring → Variables
unfolding kafka_servers
dashboard_backend_vars w =
    ("PORT", plain "8080")
    ∷ (
      "DASHBOARD_DATABASE_URL",
      reference (or_else w.dashboard_postgres w.postgres) (db_url_key w) ∷ [],
    )
    ∷ ("DASHBOARD_DB_NAME", plain "dashboard_db")
    ∷ ("KAFKA_LOG_TOPIC", plain "app-logs")
    ∷ ("CACHE_MAX_ENTRIES", plain "1000")
    ∷ ("DB_FLUSH_INTERVAL", plain "30")
    ∷ ("LOAD_TEST_BYPASS_TOKEN", plain (load_test_bypass w))
    ∷ (with_value "LOAD_TEST_TARGET_URL" (load_test_target w)
        ++ (kafka_servers w
            ++ when (not (is_empty (log_ingest_token w)))
                (("LOG_INGEST_TOKEN", plain (log_ingest_token w)) ∷ [])))

-- A switch that is on where it is not set.
abbrev pub switched_on : Store String → String → Bool
switched_on env key =
    let raw = trim (or_else (get env key) "1") in
    is_empty raw
    || raw == "1"
    || to_lower raw == "true"
    || to_lower raw == "yes"
    || to_lower raw == "on"

abbrev flag : Bool → Value
flag b = plain (if b then "1" else "0")

unfoldable pub poll_seconds : Wiring → Variables
poll_seconds w =
    let poll = setting w.env "RAILWAY_WATCHDOG_POLL_SEC" in
    when (not (is_empty poll)) (("RAILWAY_WATCHDOG_POLL_SEC", plain poll) ∷ [])

-- The project's token, or else the account's.
unfoldable pub tokens : Wiring → Variables
tokens w =
    let pt = setting w.env "DASHBOARD_RAILWAY_PROJECT_TOKEN" in
    let at = setting w.env "DASHBOARD_RAILWAY_API_TOKEN" in
    if not (is_empty pt)
    then ("RAILWAY_PROJECT_TOKEN", plain pt) ∷ []
    else when (not (is_empty at)) (("RAILWAY_API_TOKEN", plain at) ∷ [])

unfoldable pub railway_watchdog_vars : Wiring → Variables
unfolding poll_seconds tokens
railway_watchdog_vars w =
    ("PORT", plain "8080")
    ∷ ("RAILWAY_PROJECT_ID", plain w.project_id)
    ∷ ("RAILWAY_ENVIRONMENT_ID", plain w.environment_id)
    ∷ ("RAILWAY_WATCHDOG_AUTO_RECOVER", flag (switched_on w.env "RAILWAY_WATCHDOG_AUTO_RECOVER"))
    ∷ ("RAILWAY_HEARTBEAT_INTERNAL_PORT", plain "8080")
    ∷ (poll_seconds w ++ tokens w)

-- The private address of a service.
abbrev pub private_url : String → Value
private_url service =
    literal "http://"
    ∷ reference service "RAILWAY_PRIVATE_DOMAIN"
    ∷ literal ":"
    ∷ reference service "PORT"
    ∷ []

unfoldable pub chaos_allowed : Wiring → Variables
chaos_allowed w =
    let allowed = setting w.env "CHAOS_ALLOWED_SERVICES" in
    when (not (is_empty allowed)) (("CHAOS_ALLOWED_SERVICES", plain allowed) ∷ [])

unfoldable pub dashboard_vars : Wiring → Variables
unfolding poll_seconds tokens chaos_allowed
dashboard_vars w =
    ("DASHBOARD_BACKEND_URL", private_url "dashboard-backend")
    ∷ (when (has w.names "railway-watchdog")
          (("WATCHDOG_SERVICE_URL", private_url "railway-watchdog") ∷ [])
        ++ (with_value "NEXT_PUBLIC_LOAD_TEST_TARGET_URL" (load_test_target w)
            ++ (("VISIBILITY_COMPOSE_PROJECT", plain "pe-hackathon-2026")
                ∷ ("RAILWAY_PROJECT_ID", plain w.project_id)
                ∷ ("RAILWAY_ENVIRONMENT_ID", plain w.environment_id)
                ∷ ("VISIBILITY_ALERTMANAGER_DISABLED", plain "1")
                ∷ ("CHAOS_KILL_ENABLED", flag (switched_on w.env "CHAOS_KILL_ENABLED"))
                ∷ (
                  "RAILWAY_WATCHDOG_AUTO_RECOVER",
                  flag (switched_on w.env "RAILWAY_WATCHDOG_AUTO_RECOVER"),
                )
                ∷ (poll_seconds w ++ (tokens w ++ chaos_allowed w)))))

unfoldable pub user_frontend_vars : Wiring → Variables
user_frontend_vars w =
    let explicit = strip_slashes (setting w.env "USER_FRONTEND_BACKEND_URL") in
    (
      "BACKEND_URL",
      if not (is_empty explicit)
          then plain explicit
          else if has w.names "load-balancer"
          then literal "https://" ∷ reference "load-balancer" "RAILWAY_PUBLIC_DOMAIN" ∷ []
          else literal "https://" ∷ reference "url-shortener-a" "RAILWAY_PUBLIC_DOMAIN" ∷ [],
    )
    ∷ []

-- The upserts in their order: a service with its variables.
abbrev pub Plan : Type 0
Plan = List (String × Variables)

abbrev pub planned : Bool → String → Variables → Plan
planned b service vs = if b then (service, vs) ∷ [] else []

unfoldable pub sync_plan : Wiring → Plan
sync_plan w =
    ("url-shortener-a", url_shortener_base w ++ ("INSTANCE_ID", plain "1") ∷ [])
    ∷ ("url-shortener-b", url_shortener_base w ++ ("INSTANCE_ID", plain "2") ∷ [])
    ∷ (planned
          (has w.names "load-balancer"
            && has w.names "url-shortener-a"
            && has w.names "url-shortener-b")
          "load-balancer" (load_balancer_vars w)
        ++ (("dashboard-backend", dashboard_backend_vars w)
            ∷ (planned (has w.names "railway-watchdog") "railway-watchdog" (railway_watchdog_vars w)
                ++ (planned (has w.names "dashboard") "dashboard" (dashboard_vars w)
                    ++ planned (has w.names "user-frontend") "user-frontend"
                        (user_frontend_vars w)))))
