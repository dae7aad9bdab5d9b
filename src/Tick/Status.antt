-- ===== src/Tick/Status.antt =====
-- railway-watchdog-tick.ts: how the tick reads a deployment status.
use pe_hackathon.Base.{
  Bool, true, false, ◌||◌, String, List, [], ◌∷◌, ◌==◌, if◌then◌else◌, or_else, has,
}
use pe_hackathon.Text.{is_empty, trim, to_lower, to_upper, includes}
use pe_hackathon.Visibility.Status.{RailwayOnlineStatus, completed, failed, skipped, unknown}
use pe_hackathon.Visibility.Rows.{RailwayVisibilityRow}
use pe_hackathon.Tick.State.{WatchdogPrevEntry}

unfoldable pub is_bad : String → Bool
is_bad s = let u = to_upper s in u == "CRASHED" || u == "FAILED"

unfoldable pub is_deploying : String → Bool
is_deploying s =
    let u = to_upper s in
    u == "BUILDING" || u == "DEPLOYING" || u == "INITIALIZING" || u == "QUEUED" || u == "WAITING"

unfoldable pub is_healthy : String → Bool
is_healthy s = let u = to_upper s in u == "SUCCESS" || u == "SLEEPING"

abbrev pub was_completed_like : RailwayOnlineStatus → Bool
was_completed_like completed = true
was_completed_like failed = true
was_completed_like unknown = true
was_completed_like skipped = true
was_completed_like _ = false

unfoldable pub needs_auto_recover_trigger : String → Bool
needs_auto_recover_trigger status = let u = to_upper status in u == "CRASHED" || u == "FAILED"

unfoldable pub was_actively_deployed : WatchdogPrevEntry → Bool
was_actively_deployed before =
    if is_empty (trim before.deployment_id)
    then false
    else is_healthy before.deployment_status || is_deploying before.deployment_status

abbrev stopped_states : List String
stopped_states = "STOPPED" ∷ "REMOVED" ∷ "CANCELED" ∷ "CANCELLED" ∷ []

unfoldable pub is_now_stopped_or_no_deployment : String → String → RailwayVisibilityRow → Bool
is_now_stopped_or_no_deployment dep_id cur row =
    is_empty (trim dep_id)
    || has stopped_states (to_upper cur)
    || includes (to_lower row.status) "no active deployment"

-- `row.service || row.name`, `row.railwayDeploymentId ?? ""`,
-- `(row.deploymentStatus ?? "UNKNOWN").trim()`
unfoldable pub display_name : RailwayVisibilityRow → String
display_name row = if is_empty row.service then row.name else row.service

unfoldable pub deployment_id_of : RailwayVisibilityRow → String
deployment_id_of row = or_else row.railway_deployment_id ""

unfoldable pub current_status : RailwayVisibilityRow → String
current_status row = trim (or_else row.deployment_status "UNKNOWN")
