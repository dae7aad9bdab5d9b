-- ===== src/Worker.antt =====
-- watchdog-service/src/server.ts: the process that owns the watchdog's state, polls and streams.
pub mod Exclusion
use pe_hackathon.Base.{
  ℕ, zero, suc, ◌+◌, ◌-◌, ◌*◌, ◌<◌, Bool, true, false, not, ◌&&◌, ◌||◌, Option, none, some, String,
  List, [], ◌∷◌, ◌++◌, map, ltb, eqb, ◌==◌, if◌then◌else◌, keep, max, Outcome, returned, threw,
}
use pe_hackathon.Text.{ℤ, pos, negsuc, parse_int}
use pe_hackathon.Env.{Env}
use pe_hackathon.Tick.State.{
  WatchdogPayload, WatchdogPersistentState, unconfigured, error_source, create_empty_watchdog_state,
}
use pe_hackathon.Tick.Settings.{railway_watchdog_interval_sec}
use pe_hackathon.Tick.Run.{Ticked, TickInputs, run_railway_watchdog_tick}

-- What is written to a subscriber's response.
pub data Chunk : Type 0 where
  tick_event : WatchdogPayload → Chunk
  keepalive : Chunk

-- The variables of the module. A subscriber is a number; `written` has the chunks in order, and
-- `ticks` counts the calls of `runRailwayWatchdogTick` that have not settled.
pub record Worker : Type 0 where
  pub state : WatchdogPersistentState
  pub last_payload : Option WatchdogPayload
  pub tick_in_flight : Bool
  pub sse_responses : List ℕ
  pub written : List (ℕ × Chunk)
  pub ticks : ℕ

unfoldable pub initial : Worker
initial = record {
  state = create_empty_watchdog_state;
  last_payload = none;
  tick_in_flight = false;
  sse_responses = [];
  written = [];
  ticks = 0;
}

abbrev to_chunk : WatchdogPayload → ℕ → ℕ × Chunk
to_chunk payload id = (id, tick_event payload)

-- `broken` tells whose `res.write` throws: these are dropped from the set.
unfoldable pub broadcast_tick : (ℕ → Bool) → WatchdogPayload → Worker → Worker
broadcast_tick broken payload w =
    let reached = keep (λ id. not (broken id)) w.sse_responses in
    record w { sse_responses = reached; written = w.written ++ map (to_chunk payload) reached }

-- `runTick` up to its `await`.
unfoldable pub begin_tick : Worker → Worker
begin_tick w =
    if w.tick_in_flight then w else record w { tick_in_flight = true; ticks = w.ticks + 1 }

error_payload : Env → String → String → WatchdogPayload
error_payload env now msg = record {
  source = error_source;
  interval_sec = railway_watchdog_interval_sec env;
  last_tick_at = some now;
  instances_monitored = 0;
  events = [];
  log_tail = none;
  error = some msg;
  heartbeat = none;
  api_activity = none;
}

settle : (ℕ → Bool) → WatchdogPayload → Worker → Worker
settle broken payload w =
    record (broadcast_tick broken payload (record w { last_payload = some payload })) {
      tick_in_flight = false;
      ticks = w.ticks - 1;
    }

-- The rest of `runTick`, when the tick has returned.
unfoldable pub end_tick : (ℕ → Bool) → Ticked → Worker → Worker
unfolding settle
end_tick broken t w = settle broken t.payload (record w { state = t.state })

-- The rest of `runTick`, when the tick has thrown `msg` and left `state` behind.
unfoldable pub end_tick_threw :
    Env → (ℕ → Bool) → String → String → WatchdogPersistentState → Worker → Worker
unfolding settle error_payload
end_tick_threw env broken now msg state w =
    settle broken (error_payload env now msg) (record w { state = state })

parsed_port : Option ℤ → ℕ
parsed_port none = 8080
parsed_port (some (negsuc n)) = 8080
parsed_port (some (pos n)) = if ltb 0 n then n else 8080

-- `port` is `process.env.PORT`.
unfoldable pub parse_port : Option String → ℕ
unfolding parsed_port
parse_port none = parsed_port (parse_int "8080")
parse_port (some port) = parsed_port (parse_int port)

unfoldable pub poll_ms : Env → ℕ
poll_ms env = max 5000 (railway_watchdog_interval_sec env * 1000)

pub data Response : Type 0 where
  text : (status : ℕ) → (body : String) → Response
  payload : WatchdogPayload → Response
  stream : Response

not_completed : Env → WatchdogPayload
not_completed env = record {
  source = unconfigured;
  interval_sec = railway_watchdog_interval_sec env;
  last_tick_at = none;
  instances_monitored = 0;
  events = [];
  log_tail = none;
  error = some "No tick completed yet";
  heartbeat = none;
  api_activity = none;
}

last_or : Option WatchdogPayload → WatchdogPayload → WatchdogPayload
last_or none p = p
last_or (some q) p = q

first_chunk : ℕ → Option WatchdogPayload → List (ℕ × Chunk)
first_chunk id none = []
first_chunk id (some p) = (id, tick_event p) ∷ []

-- A request on the connection `id`.
unfoldable pub handle_request : Env → String → String → ℕ → Worker → Worker × Response
unfolding not_completed last_or first_chunk
handle_request env method path id w =
    let get = method == "GET" in
    if path == "/health" && get
    then (w, text 200 "ok")
    else if path == "/v1/status" && get
    then (w, payload (last_or w.last_payload (not_completed env)))
    else if path == "/v1/stream" && get
    then (
      record w {
        sse_responses = w.sse_responses ++ id ∷ [];
        written = w.written ++ first_chunk id w.last_payload;
      },
      stream,
    )
    else (w, text 404 "not found")

drop_subscriber : ℕ → Worker → Worker
drop_subscriber id w = record w { sse_responses = keep (λ j. not (eqb j id)) w.sse_responses }

-- The timer of the connection `id`.
unfoldable pub send_keepalive : (ℕ → Bool) → ℕ → Worker → Worker
unfolding drop_subscriber
send_keepalive broken id w =
    if broken id
    then drop_subscriber id w
    else record w { written = w.written ++ (id, keepalive) ∷ [] }

-- `req.on("close")`
unfoldable pub close_connection : ℕ → Worker → Worker
unfolding drop_subscriber
close_connection id w = drop_subscriber id w

-- What can happen next. A tick that runs returns or throws at any time; between its start and that,
-- everything else can happen.
pub data Step (env : Env) : Worker → Worker → Type 0 where
  timer : {w : Worker} → Step env w (begin_tick w)
  returns :
      {w : Worker}
      → (broken : ℕ → Bool) (inputs : TickInputs) → 0 < w.ticks
      → Step env w (end_tick broken (run_railway_watchdog_tick env inputs w.state) w)
  throws :
      {w : Worker}
      → (broken : ℕ → Bool) (now msg : String) (state : WatchdogPersistentState) → 0 < w.ticks
      → Step env w (end_tick_threw env broken now msg state w)
  request :
      {w : Worker}
      → (method path : String) (id : ℕ) → Step env w (handle_request env method path id w).0
  alive : {w : Worker} → (broken : ℕ → Bool) (id : ℕ) → Step env w (send_keepalive broken id w)
  closes : {w : Worker} → (id : ℕ) → Step env w (close_connection id w)

pub data Reach (env : Env) : Worker → Type 0 where
  here : Reach env initial
  next : {w w' : Worker} → Reach env w → Step env w w' → Reach env w'
