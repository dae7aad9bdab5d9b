-- ===== src/Visibility/Agreement.antt =====
-- railway-visibility.ts and railway-watchdog-tick.ts: three readings of a deployment status agree.
use pe_hackathon.Base.{◌≡◌, ◌↔◌, ◌⊎◌, ◌||◌, Option, none, some, String, has, if◌then◌else◌, ◌==◌}
use pe_hackathon.Text.{is_empty}
use pe_hackathon.Visibility.Status.{
  RailwayOnlineStatus, in_flight, online, completed, deploying, failed, skipped, unknown,
}

-- The classes of statuses that some reading tells apart.
data StatusClass : Type 0 where
  success sleeping moving bad gone halted passed_over other : StatusClass

classify : String → StatusClass
classify s =
    if is_empty s || s == "UNKNOWN"
    then other
    else if s == "SUCCESS"
    then success
    else if s == "SLEEPING"
    then sleeping
    else if has in_flight s
    then moving
    else if s == "FAILED" || s == "CRASHED"
    then bad
    else if s == "REMOVED"
    then gone
    else if s == "STOPPED" || s == "CANCELED" || s == "CANCELLED"
    then halted
    else if s == "SKIPPED"
    then passed_over
    else other

abbrev state_of : StatusClass → String × Option String
state_of success = ("running", some "healthy")
state_of sleeping = ("running", none)
state_of moving = ("running", some "starting")
state_of bad = ("exited", some "unhealthy")
state_of gone = ("dead", none)
state_of halted = ("exited", none)
state_of passed_over = ("skipped", none)
state_of other = ("unknown", none)

abbrev badge_of : StatusClass → RailwayOnlineStatus
badge_of success = online
badge_of sleeping = online
badge_of moving = deploying
badge_of bad = failed
badge_of gone = completed
badge_of halted = completed
badge_of passed_over = skipped
badge_of other = unknown

-- The shown state and health fit the badge.
abbrev pub Fits : String × Option String → RailwayOnlineStatus → Type 0
Fits shown badge =
    ((shown.0 ≡ "running") ↔ ((badge ≡ online) ⊎ (badge ≡ deploying)))
    × ((shown.1 ≡ some "healthy") → badge ≡ online)
    × ((shown.1 ≡ some "starting") ↔ (badge ≡ deploying))
    × ((shown.1 ≡ some "unhealthy") ↔ (badge ≡ failed))
