-- ===== src/Views/Scheduling.antt =====
-- docker/route.ts and chaos/status/route.ts: the views schedule nothing.
use pe_hackathon.Base.{◌≡◌, Bool, true, false, Option, String, List, [], ◌∷◌, arith}
use pe_hackathon.Base.Store.{Store, get-put, get-delete}
use pe_hackathon.Env.{Env}
use pe_hackathon.Visibility.Status.{RailwayOnlineStatus}
use pe_hackathon.Visibility.Rows.{RailwayVisibilityRow}
use pe_hackathon.Heartbeat.{HeartbeatPingResult}
use pe_hackathon.Lifecycle.{
  HeartbeatExitLifecycleState, effective_railway_online_status_after_probe, probe_not_online,
  probe_failed, probe_ok, sync_heartbeat_exit_deployment_id, peek_exit_lifecycle_redeem,
}
use pe_hackathon.Views.Table.{TableWorld, show_row, show_rows, railway_rows, get_visibility}
use pe_hackathon.Views.State.{StateWorld, found_row, state_of_rows, get_state}

-- A probe that does not schedule leaves a redeployment due only where it was.
unfoldable pub SchedulesNothing : HeartbeatExitLifecycleState → HeartbeatExitLifecycleState → Type 0
SchedulesNothing before after =
    (sid : String)
    → peek_exit_lifecycle_redeem after sid ≡ true
    → peek_exit_lifecycle_redeem before sid ≡ true

probe-SchedulesNothing :
    (env : Env) (s : HeartbeatExitLifecycleState) (sid dep : String) (base : RailwayOnlineStatus)
    (hb : Option HeartbeatPingResult)
    → SchedulesNothing s (effective_railway_online_status_after_probe env s sid dep base hb false).0
unfolding effective_railway_online_status_after_probe probe_not_online probe_failed probe_ok
    sync_heartbeat_exit_deployment_id peek_exit_lifecycle_redeem SchedulesNothing
probe-SchedulesNothing env s sid dep base hb j due = grind (arith, get-put, get-delete)

show_rows-SchedulesNothing :
    (env : Env) (beats : Store HeartbeatPingResult) (rows : List RailwayVisibilityRow)
    (s : HeartbeatExitLifecycleState)
    → SchedulesNothing s (show_rows env beats rows s).0
unfolding show_rows show_row SchedulesNothing
show_rows-SchedulesNothing env beats [] s j due = due
show_rows-SchedulesNothing env beats (row ∷ rows) s j due =
    probe-SchedulesNothing env s _ _ _ _ j (show_rows-SchedulesNothing env beats rows _ j due)

-- No request to either view schedules a redeployment, whatever Railway, the services and Docker answer.
pub views-SchedulesNothing :
    (env : Env) (s : HeartbeatExitLifecycleState) (heartbeats : Bool) (tw : TableWorld)
    (service id : Option String) (sw : StateWorld)
    → SchedulesNothing s (get_visibility env heartbeats tw s).0
      × SchedulesNothing s (get_state env service id sw s).0
unfolding get_visibility railway_rows get_state state_of_rows found_row SchedulesNothing
views-SchedulesNothing env s heartbeats tw service id sw = (
  λ j due. grind (arith, show_rows-SchedulesNothing),
  λ j due. grind (arith, probe-SchedulesNothing),
)
