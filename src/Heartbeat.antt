-- ===== src/Heartbeat.antt =====
-- dashboard/src/lib/watchdog-core/service-heartbeat.ts: which URL is probed for a service, and what
-- a probe tells.
use Prim.Native.String
use pe_hackathon.Base.{
  ℕ, ◌+◌, code, Bool, true, false, not, ◌&&◌, ◌||◌, Option, none, some, String, List, [], ◌∷◌, ltb,
  eqb, ◌==◌, if◌then◌else◌, or_else, has,
}
use pe_hackathon.Text.{
  starts_with, ℤ, pos, negsuc, is_empty, truthy, is_space, trim, to_lower, includes, template,
  parse_int, show,
}
use pe_hackathon.Env.{Env}
use pe_hackathon.Visibility.Graphql.{is_ok_status}
use pe_hackathon.Visibility.Rows.{RailwayVisibilityRow}

abbrev pub internal_http_services : List String
internal_http_services =
    "db" ∷ "dashboard-db" ∷ "postgres" ∷ "redis" ∷ "kafka" ∷ "zookeeper" ∷ "kafka-log-consumer"
    ∷ "prometheus" ∷ "alertmanager" ∷ "db-backup" ∷ []

path_for : String → Option String
path_for s =
    if is_empty s || has internal_http_services s
    then none
    else if includes s "postgres" && not (includes s "shortener")
    then none
    else if s == "dashboard-backend" || s == "dashboard"
    then some "/api/health"
    else if s == "user-frontend"
    then some "/"
    else if s == "load-balancer" || starts_with s "url-shortener"
    then some "/live"
    else if s == "railway-watchdog"
    then some "/health"
    else none

unfoldable pub heartbeat_path_for_service : String → Option String
unfolding path_for starts_with
heartbeat_path_for_service service_name = path_for (to_lower (trim service_name))

abbrev port_or_default : Option ℤ → ℕ
port_or_default none = 8080
port_or_default (some (negsuc n)) = 8080
port_or_default (some (pos n)) = if ltb 0 n && ltb n 65536 then n else 8080

unfoldable pub heartbeat_internal_port : Env → ℕ
heartbeat_internal_port env =
    port_or_default (parse_int (or_else (env "RAILWAY_HEARTBEAT_INTERNAL_PORT") "8080"))

abbrev pub is_off : String → Bool
is_off raw = raw == "0" || raw == "false" || raw == "no" || raw == "off"

abbrev pub is_on : String → Bool
is_on raw = raw == "1" || raw == "true" || raw == "yes" || raw == "on"

unfoldable pub should_use_private_railway_heartbeat : Env → Bool
should_use_private_railway_heartbeat env =
    let explicit = to_lower (trim (or_else (env "RAILWAY_HEARTBEAT_USE_PRIVATE_URL") "")) in
    if is_off explicit
    then false
    else if is_on explicit
    then true
    else not (is_empty (trim (or_else (env "RAILWAY_PRIVATE_DOMAIN") "")))

-- `s.replace(/\s+/g, "-")`; the flag says that the last character was a space.
dash_spaces : Bool → String → String
dash_spaces in_run String.[] = ""
dash_spaces in_run (String.◌∷◌ c s) =
    let rest = dash_spaces (is_space c) s in
    if is_space c then (if in_run then rest else String.◌++◌ "-" rest) else String.◌∷◌ c rest

service_internal_hostname : String → String
unfolding dash_spaces
service_internal_hostname service_name = dash_spaces false (to_lower (trim service_name))

unfoldable pub normalize_public_url_for_fetch : String → String
unfolding starts_with
normalize_public_url_for_fetch raw =
    let s = trim raw in
    let lower = to_lower s in
    if is_empty s
    then s
    else if starts_with lower "http://" || starts_with lower "https://"
    then s
    else if starts_with s "//"
    then template ("https:" ∷ s ∷ [])
    else template ("https://" ∷ s ∷ [])

-- `s.replace(/\/+$/, "")`
unfoldable pub strip_slashes : String → String
strip_slashes String.[] = ""
strip_slashes (String.◌∷◌ c s) =
    let rest = strip_slashes s in
    if is_empty rest && eqb (code c) b'/' then "" else String.◌∷◌ c rest

unfoldable pub probe_url_for : Env → Option String → String → String → Option String
unfolding service_internal_hostname
probe_url_for env public_url service_name path =
    let raw = trim (or_else public_url "") in
    if should_use_private_railway_heartbeat env
    then some (
        template (
          "http://"
          ∷ service_internal_hostname service_name
          ∷ ".railway.internal:"
          ∷ show (heartbeat_internal_port env)
          ∷ path
          ∷ []))
    else if is_empty raw
    then none
    else some (template (strip_slashes (normalize_public_url_for_fetch raw) ∷ path ∷ []))

unfoldable pub build_heartbeat_probe_url : Env → Option String → String → Option String
build_heartbeat_probe_url env public_url service_name =
    elim (heartbeat_path_for_service service_name) [
      | none ↦ none
      | some path ↦ probe_url_for env public_url service_name path
    ]

-- `HeartbeatPingResult`; `ok` is `none` when the probe was skipped.
pub record HeartbeatPingResult : Type 0 where
  pub railway_service_id : String
  pub service : String
  pub probe_url : Option String
  pub skipped : Bool
  pub ok : Option Bool
  pub status_code : Option ℕ
  pub latency_ms : Option ℕ
  pub error : Option String

-- What `fetch` does with the probe: an HTTP status, or an error (the timeout's abort is one), after
-- so many milliseconds.
pub data Fetched : Type 0 where
  responded : (status : ℕ) → (latency_ms : ℕ) → Fetched
  failed : (message : String) → (latency_ms : ℕ) → Fetched

pub record Ping : Type 0 where
  pub ok : Bool
  pub status_code : Option ℕ
  pub latency_ms : ℕ
  pub error : Option String

unfoldable pub ping_heartbeat_url : Fetched → Ping
ping_heartbeat_url (responded status ms) = record {
  ok = is_ok_status status;
  status_code = some status;
  latency_ms = ms;
  error = none;
}
ping_heartbeat_url (failed msg ms) = record {
  ok = false;
  status_code = none;
  latency_ms = ms;
  error = some msg;
}

unfoldable pub ping_row : Env → Fetched → RailwayVisibilityRow → HeartbeatPingResult
ping_row env answer row = elim (build_heartbeat_probe_url env row.railway_public_url row.service) [
  | none ↦ record {
    railway_service_id = row.railway_service_id;
    service = row.service;
    probe_url = none;
    skipped = true;
    ok = none;
    status_code = none;
    latency_ms = none;
    error = none;
  }
  | some url ↦
      let r = ping_heartbeat_url answer in
      record {
        railway_service_id = row.railway_service_id;
        service = row.service;
        probe_url = some url;
        skipped = false;
        ok = some r.ok;
        status_code = r.status_code;
        latency_ms = some r.latency_ms;
        error = truthy r.error;
      }
]

-- `answers i` is what the network does with the i-th row's probe, if it has one.
unfoldable pub ping_railway_service_heartbeats :
    Env → (ℕ → Fetched) → ℕ → List RailwayVisibilityRow → List HeartbeatPingResult
ping_railway_service_heartbeats env answers i [] = []
ping_railway_service_heartbeats env answers i (row ∷ rows) =
    ping_row env (answers i) row ∷ ping_railway_service_heartbeats env answers (i + 1) rows
