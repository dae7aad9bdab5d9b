-- ===== src/Visibility/Status.antt =====
-- railway-visibility.ts: what the dashboard shows for a deployment status.
use pe_hackathon.Base.{
  Bool, true, false, ◌||◌, Option, none, some, String, List, [], ◌∷◌, ◌==◌, if◌then◌else◌, or_else,
  has,
}
use pe_hackathon.Text.{is_empty, trim, to_upper}

pub data RailwayOnlineStatus : Type 0 where
  online completed deploying failed skipped unknown exited : RailwayOnlineStatus

-- The states of a deployment on its way in or out.
abbrev pub in_flight : List String
in_flight =
    "BUILDING" ∷ "DEPLOYING" ∷ "INITIALIZING" ∷ "NEEDS_APPROVAL" ∷ "QUEUED" ∷ "WAITING" ∷ "REMOVING"
    ∷ "THROTTLED" ∷ []

-- `{ state, health }`
unfoldable pub deployment_status_to_state : String → String × Option String
deployment_status_to_state status =
    let s = to_upper (trim status) in
    if is_empty s || s == "UNKNOWN"
    then ("unknown", none)
    else if s == "SUCCESS"
    then ("running", some "healthy")
    else if s == "SLEEPING"
    then ("running", none)
    else if has in_flight s
    then ("running", some "starting")
    else if s == "FAILED" || s == "CRASHED"
    then ("exited", some "unhealthy")
    else if s == "REMOVED"
    then ("dead", none)
    else if s == "STOPPED" || s == "CANCELED" || s == "CANCELLED"
    then ("exited", none)
    else if s == "SKIPPED"
    then ("skipped", none)
    else ("unknown", none)

unfoldable pub deployment_status_to_railway_ui : Option String → Bool → RailwayOnlineStatus
deployment_status_to_railway_ui status false = completed
deployment_status_to_railway_ui status true =
    let s = to_upper (trim (or_else status "")) in
    if is_empty s || s == "UNKNOWN"
    then unknown
    else if s == "SUCCESS" || s == "SLEEPING"
    then online
    else if has in_flight s
    then deploying
    else if s == "FAILED" || s == "CRASHED"
    then failed
    else if s == "REMOVED" || s == "STOPPED" || s == "CANCELED" || s == "CANCELLED"
    then completed
    else if s == "SKIPPED"
    then skipped
    else unknown
