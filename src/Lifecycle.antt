-- ===== src/Lifecycle.antt =====
-- dashboard/src/lib/watchdog-core/heartbeat-lifecycle.ts: when repeated failures of the liveness
-- probe turn an online service into an exited one, and schedule its redeployment.
pub mod Streaks
pub mod History
use pe_hackathon.Base.{
  ℕ, ◌+◌, Bool, true, false, not, ◌&&◌, ◌||◌, Option, none, some, String, [], leb, ◌==◌,
  if◌then◌else◌, or_else,
}
use pe_hackathon.Base.Store.{Store, get, put, delete}
use pe_hackathon.Text.{at_least, trim, to_lower, parse_int, is_empty}
use pe_hackathon.Env.{Env}
use pe_hackathon.Visibility.Status.{RailwayOnlineStatus, online, exited}
use pe_hackathon.Heartbeat.{HeartbeatPingResult}

unfoldable pub heartbeat_exit_failure_threshold : Env → ℕ
heartbeat_exit_failure_threshold env =
    at_least 1 2 (parse_int (or_else (env "RAILWAY_HEARTBEAT_EXIT_THRESHOLD") "2"))

unfoldable pub railway_heartbeat_exit_redeploy_enabled : Env → Bool
railway_heartbeat_exit_redeploy_enabled env =
    let raw = to_lower (trim (or_else (env "RAILWAY_HEARTBEAT_EXIT_REDEPLOY") "1")) in
    if is_empty raw || raw == "1" || raw == "true" || raw == "yes" || raw == "on"
    then true
    else not (raw == "0" || raw == "false" || raw == "no" || raw == "off")

pub record HeartbeatExitLifecycleState : Type 0 where
  pub consecutive_fails : Store ℕ
  pub last_deployment_id : Store String
  pub lifecycle_exited : Store Bool
  pub redeem_on_next_tick : Store Bool

unfoldable pub create_heartbeat_exit_lifecycle_state : HeartbeatExitLifecycleState
create_heartbeat_exit_lifecycle_state = record {
  consecutive_fails = [];
  last_deployment_id = [];
  lifecycle_exited = [];
  redeem_on_next_tick = [];
}

-- `prev !== deploymentId`
differs : Option String → String → Bool
differs none id = true
differs (some prev) id = not (prev == id)

unfoldable pub sync_heartbeat_exit_deployment_id :
    HeartbeatExitLifecycleState → String → String → HeartbeatExitLifecycleState
unfolding differs
sync_heartbeat_exit_deployment_id state sid dep =
    if differs (get state.last_deployment_id sid) dep
    then record state {
      last_deployment_id = put state.last_deployment_id sid dep;
      consecutive_fails = delete state.consecutive_fails sid;
      lifecycle_exited = delete state.lifecycle_exited sid;
      redeem_on_next_tick = delete state.redeem_on_next_tick sid;
    }
    else state

-- The branch for a base status other than online.
unfoldable pub probe_not_online : HeartbeatExitLifecycleState → String → HeartbeatExitLifecycleState
probe_not_online state sid = record state {
  consecutive_fails = delete state.consecutive_fails sid;
  lifecycle_exited = delete state.lifecycle_exited sid;
}

unfoldable pub probe_ok : HeartbeatExitLifecycleState → String → HeartbeatExitLifecycleState
probe_ok state sid = record state {
  consecutive_fails = put state.consecutive_fails sid 0;
  lifecycle_exited = delete state.lifecycle_exited sid;
  redeem_on_next_tick = delete state.redeem_on_next_tick sid;
}

-- `m.get(k) === true`
abbrev pub is_true : Option Bool → Bool
is_true none = false
is_true (some b) = b

-- The last part: the probe ran and failed.
unfoldable pub probe_failed :
    Env
    → Bool
    → HeartbeatExitLifecycleState
    → String
    → HeartbeatExitLifecycleState × RailwayOnlineStatus
probe_failed env schedule state sid =
    let n = or_else (get state.consecutive_fails sid) 0 + 1 in
    let counted = put state.consecutive_fails sid n in
    let first_exit = not (is_true (get state.lifecycle_exited sid)) in
    if leb (heartbeat_exit_failure_threshold env) n
    then (
      record state {
        consecutive_fails = counted;
        lifecycle_exited = put state.lifecycle_exited sid true;
        redeem_on_next_tick =
            if first_exit && railway_heartbeat_exit_redeploy_enabled env && schedule
            then put state.redeem_on_next_tick sid true
            else state.redeem_on_next_tick;
      },
      exited,
    )
    else (record state { consecutive_fails = counted }, online)

abbrev pub is_online : RailwayOnlineStatus → Bool
is_online online = true
is_online _ = false

-- `heartbeat.ok`, and `none` where there is no result to count.
unfoldable pub verdict : Option HeartbeatPingResult → Option Bool
verdict none = none
verdict (some hb) = if hb.skipped then none else hb.ok

unfoldable pub probe_online :
    Env
    → Bool
    → HeartbeatExitLifecycleState
    → String
    → Option Bool
    → HeartbeatExitLifecycleState × RailwayOnlineStatus
probe_online env schedule state sid none = (state, online)
probe_online env schedule state sid (some true) = (probe_ok state sid, online)
probe_online env schedule state sid (some false) = probe_failed env schedule state sid

unfoldable pub effective_railway_online_status_after_probe :
    Env
    → HeartbeatExitLifecycleState
    → String
    → String
    → RailwayOnlineStatus
    → Option HeartbeatPingResult
    → Bool
    → HeartbeatExitLifecycleState × RailwayOnlineStatus
unfolding probe_online
effective_railway_online_status_after_probe env state sid dep base heartbeat schedule =
    let synced = sync_heartbeat_exit_deployment_id state sid dep in
    if is_online base
    then probe_online env schedule synced sid (verdict heartbeat)
    else (probe_not_online synced sid, base)

unfoldable pub peek_exit_lifecycle_redeem : HeartbeatExitLifecycleState → String → Bool
peek_exit_lifecycle_redeem state sid = is_true (get state.redeem_on_next_tick sid)

unfoldable pub clear_exit_lifecycle_redeem_flag :
    HeartbeatExitLifecycleState → String → HeartbeatExitLifecycleState
clear_exit_lifecycle_redeem_flag state sid = record state {
  redeem_on_next_tick = delete state.redeem_on_next_tick sid;
}

unfoldable pub clear_exit_lifecycle_for_service :
    HeartbeatExitLifecycleState → String → HeartbeatExitLifecycleState
clear_exit_lifecycle_for_service state sid = record state {
  consecutive_fails = delete state.consecutive_fails sid;
  lifecycle_exited = delete state.lifecycle_exited sid;
  redeem_on_next_tick = delete state.redeem_on_next_tick sid;
}

unfoldable pub requeue_exit_lifecycle_redeem :
    HeartbeatExitLifecycleState → String → HeartbeatExitLifecycleState
requeue_exit_lifecycle_redeem state sid = record state {
  redeem_on_next_tick = put state.redeem_on_next_tick sid true;
}
