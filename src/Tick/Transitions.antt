-- ===== src/Tick/Transitions.antt =====
-- railway-watchdog-tick.ts: the events that compare a row with the previous tick.
use pe_hackathon.Base.{
  Bool, true, false, not, ◌&&◌, ◌||◌, Option, none, some, String, [], ◌∷◌, ◌==◌, if◌then◌else◌,
  or_else,
}
use pe_hackathon.Text.{is_empty, truthy, template, show, to_upper}
use pe_hackathon.Visibility.Status.{
  RailwayOnlineStatus, online, completed, deploying, failed, skipped, unknown, exited,
}
use pe_hackathon.Visibility.Rows.{RailwayVisibilityRow}
use pe_hackathon.Tick.State.{
  recover, railway_deploy, railway_rebooting, railway_stopped, WatchdogPrevEntry, Loop, Answers,
  stopped_event_id, push_event, log_in,
}
use pe_hackathon.Tick.Status.{
  is_bad, is_healthy, is_deploying, was_completed_like, was_actively_deployed,
  is_now_stopped_or_no_deployment, display_name, deployment_id_of, current_status,
}

abbrev online_text : RailwayOnlineStatus → String
online_text online = "online"
online_text completed = "completed"
online_text deploying = "deploying"
online_text failed = "failed"
online_text skipped = "skipped"
online_text unknown = "unknown"
online_text exited = "exited"

abbrev is_deploying_status : RailwayOnlineStatus → Bool
is_deploying_status deploying = true
is_deploying_status _ = false

abbrev is_online_status : RailwayOnlineStatus → Bool
is_online_status online = true
is_online_status _ = false

-- `cur || other`
abbrev status_or : String → String → String
status_or cur other = or_else (truthy (some cur)) other

unfoldable pub stopped_now : WatchdogPrevEntry → RailwayVisibilityRow → Bool
stopped_now before row =
    was_actively_deployed before
    && is_now_stopped_or_no_deployment (deployment_id_of row) (current_status row) row

unfoldable pub report_stopped :
    String → RailwayVisibilityRow → Answers → WatchdogPrevEntry → Loop → Loop
report_stopped now row a before l =
    let name = display_name row in
    let cur = current_status row in
    if stopped_now before row
    then log_in
        (push_event l (record {
          id =
              template
                (row.railway_service_id ∷ "-stopped-" ∷ show (a.clock stopped_event_id) ∷ []);
          at = now;
          service = name;
          kind = railway_stopped;
          message = template (
              "Deployment stopped or removed; no active deployment for "
              ∷ name
              ∷ " (was "
              ∷ before.deployment_status
              ∷ ", now "
              ∷ status_or cur "none"
              ∷ ")."
              ∷ []);
        }))
        (template (
          "watchdog: "
          ∷ name
          ∷ " railway_stopped ("
          ∷ before.deployment_status
          ∷ " → "
          ∷ status_or cur "no deployment"
          ∷ ")"
          ∷ []))
    else l

-- The event of a row that began to deploy, if any.
pub data LifecycleChange : Type 0 where
  rebooting rolling_out unchanged : LifecycleChange

unfoldable pub lifecycle_change : WatchdogPrevEntry → RailwayVisibilityRow → LifecycleChange
lifecycle_change before row =
    if was_completed_like before.online_status && is_deploying_status row.railway_online_status
    then rebooting
    else if is_online_status before.online_status && is_deploying_status row.railway_online_status
    then rolling_out
    else unchanged

-- `emittedLifecycle`
abbrev pub emitted : LifecycleChange → Bool
emitted unchanged = false
emitted _ = true

unfoldable pub report_lifecycle :
    String → RailwayVisibilityRow → WatchdogPrevEntry → LifecycleChange → Loop → Loop
report_lifecycle now row before rebooting l =
    let name = display_name row in
    let cur = current_status row in
    log_in
      (push_event l (record {
        id = template (row.railway_service_id ∷ "-rebooting-" ∷ now ∷ []);
        at = now;
        service = name;
        kind = railway_rebooting;
        message = template (
            "Watchdog: " ∷ name
            ∷ " left Completed/stopped and is Deploying (reboot / new deployment). Status: " ∷ cur
            ∷ "." ∷ []);
      }))
      (template (
        "watchdog: "
        ∷ name
        ∷ " "
        ∷ online_text before.online_status
        ∷ " → deploying ("
        ∷ cur
        ∷ ")"
        ∷ []))
report_lifecycle now row before rolling_out l = push_event l (record {
  id = template (row.railway_service_id ∷ "-redeploy-" ∷ now ∷ []);
  at = now;
  service = display_name row;
  kind = railway_deploy;
  message = template (
      "Watchdog: "
      ∷ display_name row
      ∷ " is Deploying while previously Online ("
      ∷ current_status row
      ∷ ") — rolling out a new revision."
      ∷ []);
})
report_lifecycle now row before unchanged l = l

-- `isBad(b) && (isDeploying(c) || isHealthy(c))`
unfoldable pub recovering : WatchdogPrevEntry → RailwayVisibilityRow → Bool
recovering before row =
    let c = to_upper (current_status row) in
    is_bad (to_upper before.deployment_status) && (is_deploying c || is_healthy c)

-- The test of the last branch, without the one above.
unfoldable pub new_deployment : Bool → WatchdogPrevEntry → RailwayVisibilityRow → Bool
new_deployment emitted_lifecycle before row =
    let c = to_upper (current_status row) in
    not emitted_lifecycle
    && not (before.deployment_id == deployment_id_of row)
    && not (is_empty (deployment_id_of row))
    && not (is_bad (to_upper before.deployment_status))
    && (is_deploying c || is_healthy c)

unfoldable pub report_recovery :
    String → RailwayVisibilityRow → WatchdogPrevEntry → Bool → Loop → Loop
report_recovery now row before emitted_lifecycle l =
    let name = display_name row in
    let sid = row.railway_service_id in
    if recovering before row
    then push_event l (record {
      id = template (sid ∷ "-recover-" ∷ now ∷ "-" ∷ to_upper (current_status row) ∷ []);
      at = now;
      service = name;
      kind = recover;
      message = template (
          "Watchdog identified a stalled or crashed deployment ("
          ∷ before.deployment_status
          ∷ ") and Railway is recovering "
          ∷ name
          ∷ " (now "
          ∷ current_status row
          ∷ ")."
          ∷ []);
    })
    else if new_deployment emitted_lifecycle before row
    then push_event l (record {
      id = template (sid ∷ "-dep-" ∷ deployment_id_of row ∷ "-" ∷ now ∷ []);
      at = now;
      service = name;
      kind = railway_deploy;
      message =
          template ("New deployment for " ∷ name ∷ "; Railway is rolling out a new revision." ∷ []);
    })
    else l

-- The last part of a round, before the row becomes the previous one.
unfoldable pub transitions :
    String → RailwayVisibilityRow → Answers → Option WatchdogPrevEntry → Loop → Loop
unfolding report_lifecycle report_recovery
transitions now row a none l = l
transitions now row a (some before) l =
    let change = lifecycle_change before row in
    report_recovery now row before (emitted change)
      (report_lifecycle now row before change (report_stopped now row a before l))
