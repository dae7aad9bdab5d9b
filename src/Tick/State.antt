-- ===== src/Tick/State.antt =====
-- railway-watchdog-tick.ts and watchdog-types.ts: the state that outlives a tick, the events and
-- the payload.
use pe_hackathon.Base.{ℕ, Bool, Option, String, List, [], ◌∷◌, ◌++◌, push_bounded}
use pe_hackathon.Base.Store.{Store}
use pe_hackathon.Visibility.Status.{RailwayOnlineStatus}
use pe_hackathon.Visibility.Halt.{Mutation, Answer}
use pe_hackathon.Heartbeat.{Fetched}
use pe_hackathon.Lifecycle.{HeartbeatExitLifecycleState, create_heartbeat_exit_lifecycle_state}

abbrev pub log_tail_max : ℕ
log_tail_max = 40

abbrev pub api_activity_max : ℕ
api_activity_max = 48

abbrev pub recover_cooldown_ms : ℕ
recover_cooldown_ms = 50000

pub data WatchdogEventKind : Type 0 where
  recover scan railway_deploy railway_stalled railway_rebooting : WatchdogEventKind
  railway_auto_recover heartbeat_recover heartbeat_exit_redeploy railway_stopped : WatchdogEventKind

pub record WatchdogEvent : Type 0 where
  pub id : String
  pub at : String
  pub service : String
  pub kind : WatchdogEventKind
  pub message : String

pub data ActivityKind : Type 0 where
  graphql http : ActivityKind

pub data ActivityStatus : Type 0 where
  status_code : ℕ → ActivityStatus
  status_text : String → ActivityStatus

pub record WatchdogApiActivityEntry : Type 0 where
  pub at : String
  pub kind : ActivityKind
  pub target : String
  pub method : Option String
  pub duration_ms : Option ℕ
  pub status : Option ActivityStatus
  pub detail : Option String

pub data Source : Type 0 where
  docker railway unconfigured error_source : Source

pub record HeartbeatSummary : Type 0 where
  pub enabled : Bool
  pub probes : ℕ
  pub ok : ℕ
  pub failed : ℕ
  pub skipped : ℕ

pub record WatchdogPayload : Type 0 where
  pub source : Source
  pub interval_sec : ℕ
  pub last_tick_at : Option String
  pub instances_monitored : ℕ
  pub events : List WatchdogEvent
  pub log_tail : Option (List String)
  pub error : Option String
  pub heartbeat : Option HeartbeatSummary
  pub api_activity : Option (List WatchdogApiActivityEntry)

pub record WatchdogPrevEntry : Type 0 where
  pub deployment_status : String
  pub deployment_id : String
  pub online_status : RailwayOnlineStatus

-- `loggedCooldownWait` is optional in its type; every object that the code makes has it.
pub record HeartbeatRecoverState : Type 0 where
  pub deployment_id : String
  pub deployment_status : String
  pub consecutive_misses : ℕ
  pub recoveries_used : ℕ
  pub logged_budget_exhausted : Bool
  pub logged_cooldown_wait : Bool

pub record WatchdogPersistentState : Type 0 where
  pub prev : Store WatchdogPrevEntry
  pub log_tail : List String
  pub recover_cooldown : Store ℕ
  pub heartbeat_recover_state : Store HeartbeatRecoverState
  pub heartbeat_last_recover_at : Store ℕ
  pub api_activity : List WatchdogApiActivityEntry
  pub heartbeat_exit_lifecycle : HeartbeatExitLifecycleState

unfoldable pub create_empty_watchdog_state : WatchdogPersistentState
unfolding create_heartbeat_exit_lifecycle_state
create_empty_watchdog_state = record {
  prev = [];
  log_tail = [];
  recover_cooldown = [];
  heartbeat_recover_state = [];
  heartbeat_last_recover_at = [];
  api_activity = [];
  heartbeat_exit_lifecycle = create_heartbeat_exit_lifecycle_state;
}

unfoldable pub push_log_line : WatchdogPersistentState → String → WatchdogPersistentState
push_log_line state line = record state { log_tail = push_bounded log_tail_max state.log_tail line }

unfoldable pub push_activity :
    WatchdogPersistentState → WatchdogApiActivityEntry → WatchdogPersistentState
push_activity state entry = record state {
  api_activity = push_bounded api_activity_max state.api_activity entry;
}

-- Where a tick may call `serviceInstanceDeploy`, and where it reads the clock.
pub data DeploySite : Type 0 where
  exit_redeploy heartbeat_redeploy auto_redeploy : DeploySite

pub data Reading : Type 0 where
  exit_event_id cooldown_check cooldown_log recover_set recover_event_id : Reading
  auto_check auto_set auto_event_id stopped_event_id : Reading

pub data Stamp : Type 0 where
  deploy_stamp : DeploySite → Stamp
  probe_stamp skip_stamp : Stamp

pub record DeployCall : Type 0 where
  pub reply : Answer
  pub duration_ms : ℕ

-- What the world answers while one row is handled: each call site is passed once at most.
pub record Answers : Type 0 where
  pub deploy : DeploySite → DeployCall
  pub fetched : Fetched
  pub probe_ms : ℕ
  pub clock : Reading → ℕ
  pub stamp : Stamp → String

-- The variables of the loop over the rows, and the deployments that it has requested so far.
pub record Loop : Type 0 where
  pub state : WatchdogPersistentState
  pub events : List WatchdogEvent
  pub requests : List (DeploySite × Mutation)
  pub hb_probes : ℕ
  pub hb_ok : ℕ
  pub hb_fail : ℕ
  pub hb_skipped : ℕ

unfoldable pub push_event : Loop → WatchdogEvent → Loop
push_event l ev = record l { events = l.events ++ ev ∷ [] }

unfoldable pub log_in : Loop → String → Loop
unfolding push_log_line
log_in l line = record l { state = push_log_line l.state line }

unfoldable pub note_activity : Loop → WatchdogApiActivityEntry → Loop
unfolding push_activity
note_activity l entry = record l { state = push_activity l.state entry }
