-- ===== src/Tick/Run.antt =====
-- railway-watchdog-tick.ts: the loop over the rows, the clean-up after it and the payload.
use pe_hackathon.Base.{
  ℕ, ◌+◌, Bool, true, false, Option, none, some, String, List, [], ◌∷◌, map, if◌then◌else◌, or_else,
  is_some, length, take, keep,
}
use pe_hackathon.Base.Store.{get, put, retain}
use pe_hackathon.Text.{truthy, trim, template, show}
use pe_hackathon.Env.{Env}
use pe_hackathon.Visibility.Graphql.{Reply, join}
use pe_hackathon.Visibility.Halt.{Mutation}
use pe_hackathon.Visibility.Rows.{
  RailwayVisibilityRow, Project, DeploymentsBatch, fetch_railway_visibility_rows,
}
use pe_hackathon.Tick.State.{
  WatchdogEvent, WatchdogPayload, HeartbeatSummary, WatchdogPersistentState, graphql, railway,
  status_code, status_text, Loop, Answers, DeploySite, push_log_line, push_activity,
}
use pe_hackathon.Tick.Settings.{railway_watchdog_interval_sec, railway_heartbeat_enabled}
use pe_hackathon.Tick.Status.{is_bad, deployment_id_of, current_status, display_name}
use pe_hackathon.Tick.Redeem.{redeem}
use pe_hackathon.Tick.Probe.{heartbeat_row}
use pe_hackathon.Tick.AutoRecover.{forget_cooldown, auto_recover_row}
use pe_hackathon.Tick.Transitions.{transitions}

-- `prev.set(sid, { … })`
unfoldable pub remember : RailwayVisibilityRow → Loop → Loop
remember row l = record l {
  state = record (l.state) {
    prev = put (l.state).prev row.railway_service_id (record {
      deployment_status = current_status row;
      deployment_id = deployment_id_of row;
      online_status = row.railway_online_status;
    });
  };
}

-- One round. `before` is read at its start, and no part of the round writes `prev` before the end.
unfoldable pub visit : Env → String → RailwayVisibilityRow → Answers → Loop → Loop
visit env now row a l =
    let before = get (l.state).prev row.railway_service_id in
    let probed = heartbeat_row env now row a (redeem env now row a l) in
    let recovered = auto_recover_row env now row a (forget_cooldown row probed) in
    remember row (transitions now row a before recovered)

-- `answers i` is what the world answers in the i-th round.
unfoldable pub visit_all :
    Env → String → (ℕ → Answers) → ℕ → List RailwayVisibilityRow → Loop → Loop
visit_all env now answers i [] l = l
visit_all env now answers i (row ∷ rows) l =
    visit_all env now answers (i + 1) rows (visit env now row (answers i) l)

unfoldable pub service_ids : List RailwayVisibilityRow → List String
service_ids [] = []
service_ids (row ∷ rows) = row.railway_service_id ∷ service_ids rows

-- The three loops that forget the services which are gone.
unfoldable pub forget_gone : List String → WatchdogPersistentState → WatchdogPersistentState
forget_gone ids state = record state {
  prev = retain ids state.prev;
  heartbeat_recover_state = retain ids state.heartbeat_recover_state;
  heartbeat_last_recover_at = retain ids state.heartbeat_last_recover_at;
}

unfoldable pub log_events : List WatchdogEvent → WatchdogPersistentState → WatchdogPersistentState
log_events [] state = state
log_events (ev ∷ evs) state =
    log_events evs (push_log_line state (template ("  " ∷ ev.message ∷ [])))

row_is_bad : RailwayVisibilityRow → Bool
row_is_bad row = is_bad (trim (or_else row.deployment_status ""))

bad_text : RailwayVisibilityRow → String
bad_text row = template (display_name row ∷ "=" ∷ or_else row.deployment_status "?" ∷ [])

log_bad : List RailwayVisibilityRow → WatchdogPersistentState → WatchdogPersistentState
log_bad [] state = state
log_bad (row ∷ rows) state =
    push_log_line state (template ("  status: " ∷ join ", " (map bad_text (row ∷ rows)) ∷ []))

-- The lines that end a tick.
unfoldable pub log_tick :
    String
    → List RailwayVisibilityRow
    → List WatchdogEvent
    → WatchdogPersistentState
    → WatchdogPersistentState
unfolding log_bad row_is_bad bad_text
log_tick now rows events state = log_bad (keep row_is_bad rows) (
    log_events events (
      push_log_line state (
        template (
          "["
          ∷ now
          ∷ "] poll · "
          ∷ show (length rows)
          ∷ " service(s) · "
          ∷ show (length events)
          ∷ " new event(s)"
          ∷ []))))

-- `state.logTail.length > 0 ? [...state.logTail] : undefined`
abbrev log_tail_of : WatchdogPersistentState → Option (List String)
log_tail_of state = elim state.log_tail [ [] ↦ none | line ∷ lines ↦ some (line ∷ lines) ]

summary : Env → Loop → HeartbeatSummary
summary env l =
    if railway_heartbeat_enabled env
    then record {
      enabled = true;
      probes = l.hb_probes;
      ok = l.hb_ok;
      failed = l.hb_fail;
      skipped = l.hb_skipped;
    }
    else record { enabled = false; probes = 0; ok = 0; failed = 0; skipped = 0 }

-- The answers to the two queries, and the readings of the clock outside of the loop.
pub record TickInputs : Type 0 where
  pub project_reply : Reply (Option Project)
  pub batch_reply : Reply DeploymentsBatch
  pub query_ms : ℕ
  pub query_stamp : String
  pub now : String
  pub answers : ℕ → Answers

pub record Ticked : Type 0 where
  pub state : WatchdogPersistentState
  pub payload : WatchdogPayload
  pub requests : List (DeploySite × Mutation)

unfoldable pub note_query :
    TickInputs → Option String → WatchdogPersistentState → WatchdogPersistentState
note_query w error state = push_activity state (record {
  at = w.query_stamp;
  kind = graphql;
  target = "Railway GraphQL (fetchRailwayVisibilityRows)";
  method = some "POST";
  duration_ms = some w.query_ms;
  status = some (if is_some error then status_text "error" else status_code 200);
  detail = error;
})

tick_failed : Env → String → WatchdogPersistentState → Ticked
tick_failed env msg state = record {
  state = state;
  requests = [];
  payload = record {
    source = railway;
    interval_sec = railway_watchdog_interval_sec env;
    last_tick_at = none;
    instances_monitored = 0;
    events = [];
    log_tail = log_tail_of state;
    error = some msg;
    heartbeat = none;
    api_activity = some state.api_activity;
  };
}

abbrev pub start : WatchdogPersistentState → Loop
start state = record {
  state = state;
  events = [];
  requests = [];
  hb_probes = 0;
  hb_ok = 0;
  hb_fail = 0;
  hb_skipped = 0;
}

-- After the loop.
unfoldable pub finish : Env → String → List RailwayVisibilityRow → Loop → Ticked
unfolding summary
finish env now rows l =
    let events_out = take 30 l.events in
    let ended = log_tick now rows events_out (forget_gone (service_ids rows) l.state) in
    record {
      state = ended;
      requests = l.requests;
      payload = record {
        source = railway;
        interval_sec = railway_watchdog_interval_sec env;
        last_tick_at = some now;
        instances_monitored = length rows;
        events = events_out;
        log_tail = log_tail_of ended;
        error = none;
        heartbeat = some (summary env l);
        api_activity = some ended.api_activity;
      };
    }

unfoldable pub tick_rows :
    Env → TickInputs → List RailwayVisibilityRow → Option String → WatchdogPersistentState → Ticked
unfolding note_query tick_failed
tick_rows env w rows (some msg) state = tick_failed env msg (note_query w (some msg) state)
tick_rows env w rows none state =
    finish env w.now rows (visit_all env w.now w.answers 0 rows (start (note_query w none state)))

unfoldable pub run_railway_watchdog_tick : Env → TickInputs → WatchdogPersistentState → Ticked
run_railway_watchdog_tick env w state =
    let fetched = fetch_railway_visibility_rows env w.project_reply w.batch_reply in
    tick_rows env w fetched.containers (truthy fetched.error) state
