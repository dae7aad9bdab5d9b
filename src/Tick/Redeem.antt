-- ===== src/Tick/Redeem.antt =====
-- railway-watchdog-tick.ts: the redeployment that the previous tick scheduled for an exited service.
use pe_hackathon.Base.{
  Bool, not, ◌&&◌, none, some, String, [], ◌∷◌, ◌++◌, if◌then◌else◌, Outcome, returned, threw,
}
use pe_hackathon.Text.{is_empty, template, show}
use pe_hackathon.Env.{Env}
use pe_hackathon.Lifecycle.{
  peek_exit_lifecycle_redeem, clear_exit_lifecycle_redeem_flag, clear_exit_lifecycle_for_service,
  requeue_exit_lifecycle_redeem, railway_heartbeat_exit_redeploy_enabled,
}
use pe_hackathon.Visibility.Halt.{service_instance_deploy, railway_service_instance_deploy_latest}
use pe_hackathon.Visibility.Rows.{RailwayVisibilityRow}
use pe_hackathon.Tick.State.{
  WatchdogApiActivityEntry, WatchdogPersistentState, graphql, status_code, Loop, Answers,
  DeploySite, exit_redeploy, deploy_stamp, exit_event_id, push_event, heartbeat_exit_redeploy,
  log_in, note_activity,
}
use pe_hackathon.Tick.Settings.{railway_heartbeat_enabled, auto_recover, environment_id_of}
use pe_hackathon.Tick.Status.{
  is_healthy, is_deploying, display_name, deployment_id_of, current_status,
}

-- The activity entry of a deployment that went through.
abbrev pub deploy_entry : Answers → DeploySite → String → WatchdogApiActivityEntry
deploy_entry a site target = record {
  at = a.stamp (deploy_stamp site);
  kind = graphql;
  target = target;
  method = some "POST";
  duration_ms = some (a.deploy site).duration_ms;
  status = some (status_code 200);
  detail = none;
}

-- `await railwayServiceInstanceDeployLatest(environmentId, sid)`: the request, and its outcome.
unfoldable pub request_deploy : Env → DeploySite → String → Loop → Loop
request_deploy env site sid l = record l {
  requests = l.requests ++ (site, service_instance_deploy (environment_id_of env) sid) ∷ [];
}

abbrev pub deploy_outcome : Env → Answers → DeploySite → Outcome (Unit {0})
deploy_outcome env a site = railway_service_instance_deploy_latest env (a.deploy site).reply

unfoldable pub redeem_due : Env → WatchdogPersistentState → RailwayVisibilityRow → Bool
redeem_due env state row =
    railway_heartbeat_enabled env
    && railway_heartbeat_exit_redeploy_enabled env
    && auto_recover env
    && not (is_empty (environment_id_of env))
    && peek_exit_lifecycle_redeem state.heartbeat_exit_lifecycle row.railway_service_id
    && is_healthy (current_status row)
    && not (is_deploying (current_status row))
    && not (is_empty (deployment_id_of row))

clear_flag : String → Loop → Loop
clear_flag sid l = record l {
  state = record (l.state) {
    heartbeat_exit_lifecycle =
        clear_exit_lifecycle_redeem_flag (l.state).heartbeat_exit_lifecycle sid;
  };
}

redeemed : Env → String → RailwayVisibilityRow → Answers → Loop → Loop
redeemed env now row a l =
    let sid = row.railway_service_id in
    let name = display_name row in
    let noted = note_activity l (
      deploy_entry a exit_redeploy
        (template ("serviceInstanceDeploy exit-redeploy (" ∷ name ∷ ")" ∷ []))) in
    let cleared = record noted {
      state = record (noted.state) {
        heartbeat_exit_lifecycle =
            clear_exit_lifecycle_for_service (noted.state).heartbeat_exit_lifecycle sid;
      };
    } in
    log_in
      (push_event cleared (record {
        id = template (sid ∷ "-exit-redeploy-" ∷ show (a.clock exit_event_id) ∷ []);
        at = now;
        service = name;
        kind = heartbeat_exit_redeploy;
        message = template (
            "Lifecycle was exited (liveness failed); serviceInstanceDeploy(latest) for " ∷ name
            ∷ "." ∷ []);
      }))
      (template ("watchdog: exit-lifecycle redeploy " ∷ name ∷ " → serviceInstanceDeploy" ∷ []))

redeem_failed : String → RailwayVisibilityRow → Loop → Loop
redeem_failed msg row l =
    log_in
      (record l {
        state = record (l.state) {
          heartbeat_exit_lifecycle =
              requeue_exit_lifecycle_redeem (l.state).heartbeat_exit_lifecycle
                row.railway_service_id;
        };
      })
      (template ("watchdog: exit-lifecycle redeploy failed " ∷ display_name row ∷ ": " ∷ msg ∷ []))

settle_redeem : Env → String → RailwayVisibilityRow → Answers → Loop → Outcome (Unit {0}) → Loop
settle_redeem env now row a l (returned _) = redeemed env now row a l
settle_redeem env now row a l (threw msg) = redeem_failed msg row l

-- The first part of a round of the loop over the rows.
unfoldable pub redeem : Env → String → RailwayVisibilityRow → Answers → Loop → Loop
unfolding settle_redeem redeemed redeem_failed clear_flag
redeem env now row a l =
    if redeem_due env l.state row
    then settle_redeem env now row a
        (request_deploy env exit_redeploy row.railway_service_id
          (clear_flag row.railway_service_id l))
        (deploy_outcome env a exit_redeploy)
    else l
