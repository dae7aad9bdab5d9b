-- ===== src/Proxy/Status.antt =====
-- chaos/watchdog/route.ts, chaos/watchdog/stream/route.ts, lib/watchdog-service-url.ts and
-- lib/railway-watchdog.ts: where a payload comes from.
use pe_hackathon.Base.{
  ℕ, code, not, ◌&&◌, Option, none, some, ◌⊎◌, inl, inr, String, List, [], ◌∷◌, eqb, zero, suc,
  if◌then◌else◌, or_else, Outcome, returned, threw,
}
use pe_hackathon.Text.{is_empty, truthy, trim, template, show, equals}
use pe_hackathon.Env.{Env}
use pe_hackathon.Visibility.Graphql.{is_ok_status, join}
use pe_hackathon.Visibility.Halt.{Mutation}
use pe_hackathon.Visibility.Rows.{railway_ids_configured, railway_visibility_configured}
use pe_hackathon.Heartbeat.{strip_slashes}
use pe_hackathon.Tick.State.{
  WatchdogPayload, WatchdogPersistentState, DeploySite, error_source, unconfigured,
}
use pe_hackathon.Tick.Run.{TickInputs, run_railway_watchdog_tick}
use pe_hackathon.Proxy.Normalize.{DockerStatusJson, normalize_docker_watchdog}

-- What `fetch` answers: an error, or a status with the text of the body and the body as JSON.
pub data Fetch {ℓ} (A : Type ℓ) : Type ℓ where
  unreached : (message : String) → Fetch A
  got : (status : ℕ) → (text : Outcome String) → (body : Outcome A) → Fetch A

-- `process.env.X?.trim()`, if it is not empty.
abbrev set_in : Env → String → Option String
set_in process key = elim (process key) [ none ↦ none | some u ↦ truthy (some (trim u)) ]

-- `process` is `process.env`, and not the environment that `runtimeEnv` reads.
unfoldable pub watchdog_service_base_url : Env → Option String
watchdog_service_base_url process = elim (set_in process "WATCHDOG_SERVICE_URL") [
  | some u ↦ some (strip_slashes u)
  | none ↦ elim (set_in process "RAILWAY_WATCHDOG_SERVICE_URL") [
    | some u ↦ some (strip_slashes u)
    | none ↦ none
  ]
]

-- `s.replace(/\/$/, "")`
unfoldable pub strip_slash : String → String
strip_slash String.[] = ""
strip_slash (String.◌∷◌ c s) =
    let rest = strip_slash s in if is_empty s && eqb (code c) b'/' then "" else String.◌∷◌ c rest

unfoldable pub resolve_watchdog_status_urls : Env → Env → List String
resolve_watchdog_status_urls env process =
    elim (truthy (some (trim (or_else (env "WATCHDOG_STATUS_URL") "")))) [
      | some explicit ↦ strip_slash explicit ∷ []
      | none ↦
          if equals (process "NODE_ENV") "development"
          then "http://127.0.0.1:8099" ∷ "http://compose-watchdog:8099" ∷ []
          else "http://compose-watchdog:8099" ∷ "http://127.0.0.1:8099" ∷ []
    ]

-- What one candidate yields.
unfoldable pub read_status : String → Fetch DockerStatusJson → Outcome DockerStatusJson
read_status base (unreached msg) = threw msg
read_status base (got status text body) =
    if is_ok_status status
    then body
    else threw (template ("Watchdog HTTP " ∷ show status ∷ " at " ∷ base ∷ []))

-- The loop over the candidates, with `lastErr`; it ends with an answer or the last error.
unfoldable pub try_candidates :
    (String → Fetch DockerStatusJson)
    → List String
    → Option String
    → Option String ⊎ DockerStatusJson
try_candidates reply [] last_err = inl last_err
try_candidates reply (base ∷ bases) last_err = elim (read_status base (reply base)) [
  | returned raw ↦ inr raw
  | threw msg ↦ try_candidates reply bases (some msg)
]

-- The state of the in-process watchdog, the response, and the deployments that were asked for.
pub record Proxied : Type 0 where
  pub state : WatchdogPersistentState
  pub status : ℕ
  pub payload : WatchdogPayload
  pub requests : List (DeploySite × Mutation)

-- An in-process tick: it returns, or it throws and leaves a state behind.
pub data LocalTick : Type 0 where
  ticks : TickInputs → LocalTick
  breaks : (message : String) → WatchdogPersistentState → LocalTick

pub record ProxyWorld : Type 0 where
  pub remote : Fetch WatchdogPayload
  pub local : LocalTick
  pub candidate : String → Fetch DockerStatusJson

abbrev pub failure_payload : String → WatchdogPayload
failure_payload msg = record {
  source = error_source;
  interval_sec = 15;
  last_tick_at = none;
  instances_monitored = 0;
  events = [];
  log_tail = none;
  error = some msg;
  heartbeat = none;
  api_activity = none;
}

-- `s.slice(0, n)`
unfoldable pub slice_to : ℕ → String → String
slice_to zero s = ""
slice_to (suc n) String.[] = ""
slice_to (suc n) (String.◌∷◌ c s) = String.◌∷◌ c (slice_to n s)

-- The text after the status, where the body could be read and is not empty.
text_detail : Outcome String → String
text_detail (threw msg) = ""
text_detail (returned text) = if is_empty text then "" else template (": " ∷ slice_to 200 text ∷ [])

abbrev answer : WatchdogPersistentState → ℕ → WatchdogPayload → Proxied
answer s status payload = record { state = s; status = status; payload = payload; requests = [] }

unfoldable pub from_remote : Fetch WatchdogPayload → WatchdogPersistentState → Proxied
unfolding text_detail slice_to
from_remote (unreached msg) s = answer s 503 (failure_payload msg)
from_remote (got status text body) s =
    if not (is_ok_status status)
    then answer s 502 (
        failure_payload (template ("Watchdog service HTTP " ∷ show status ∷ text_detail text ∷ [])))
    else elim body [
      | returned payload ↦ answer s 200 payload
      | threw msg ↦ answer s 503 (failure_payload msg)
    ]

unfoldable pub from_local : Env → LocalTick → WatchdogPersistentState → Proxied
from_local env (breaks msg left) s = answer left 503 (failure_payload msg)
from_local env (ticks inputs) s =
    let t = run_railway_watchdog_tick env inputs s in
    record { state = t.state; status = 200; payload = t.payload; requests = t.requests }

unfoldable pub from_docker :
    List String → Option String ⊎ DockerStatusJson → WatchdogPersistentState → Proxied
from_docker candidates (inr raw) s = answer s 200 (normalize_docker_watchdog raw)
from_docker candidates (inl last_err) s = answer s 503 (
    failure_payload (
      template (
        or_else last_err "Unreachable"
        ∷ ". Tried: "
        ∷ join ", " candidates
        ∷ ". Ensure compose-watchdog is up and port 8099 is published (docker compose up compose-watchdog -d)."
        ∷ [])))

abbrev no_token : WatchdogPayload
no_token =
    record (failure_payload
      "Set RAILWAY_PROJECT_TOKEN or RAILWAY_API_TOKEN for Railway watchdog visibility.") {
        source = unconfigured;
      }

-- The handler. An address that is empty without its slashes counts as none.
unfoldable pub get_watchdog : Env → Env → ProxyWorld → WatchdogPersistentState → Proxied
get_watchdog env process w s =
    if railway_ids_configured env && railway_visibility_configured env
    then elim (truthy (watchdog_service_base_url process)) [
      | some base ↦ from_remote w.remote s
      | none ↦ from_local env w.local s
    ]
    else if railway_ids_configured env && not (railway_visibility_configured env)
    then answer s 200 no_token
    else from_docker (resolve_watchdog_status_urls env process)
        (try_candidates w.candidate (resolve_watchdog_status_urls env process) none) s

-- A text, or the body of the upstream passed on.
pub data StreamResponse : Type 0 where
  plain : (status : ℕ) → (text : String) → StreamResponse
  piped : StreamResponse

-- The handler of the stream; `body` tells whether there is a body, and an empty address counts as none.
unfoldable pub get_stream : Env → Fetch (Unit {0}) → StreamResponse
get_stream process upstream = elim (truthy (watchdog_service_base_url process)) [
  | none ↦
      plain 503
        "WATCHDOG_SERVICE_URL is not set — SSE proxy disabled; use JSON polling on /watchdog"
  | some base ↦ elim upstream [
    | unreached msg ↦ plain 503 msg
    | got status text body ↦ elim body [
      | returned _ ↦
          if is_ok_status status
          then piped
          else plain 502 (template ("Upstream watchdog stream HTTP " ∷ show status ∷ []))
      | threw _ ↦ plain 502 (template ("Upstream watchdog stream HTTP " ∷ show status ∷ []))
    ]
  ]
]
