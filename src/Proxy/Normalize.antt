-- ===== src/Proxy/Normalize.antt =====
-- chaos/watchdog/route.ts: the status of compose-watchdog as a payload.
use pe_hackathon.Base.{
  ℕ, ◌||◌, Option, none, some, String, List, [], ◌∷◌, ◌==◌, if◌then◌else◌, or_else, map,
}
use pe_hackathon.Text.{to_lower, template}
use pe_hackathon.Tick.State.{WatchdogEvent, WatchdogPayload, docker, recover}

pub record DockerEvent : Type 0 where
  pub id : String
  pub at : String
  pub service : String
  pub action : Option String
  pub reason : Option String

-- `DockerStatusJson`, as its type has it; a count is a natural number.
pub record DockerStatusJson : Type 0 where
  pub interval_sec : Option ℕ
  pub last_tick_at : Option String
  pub instances_monitored : Option ℕ
  pub log_tail : Option (List String)
  pub events : Option (List DockerEvent)

starting_text : String → String
starting_text service =
    template
      ("Watchdog identified an exited or killed container and is starting " ∷ service ∷ "." ∷ [])

restarting_text : String → String
restarting_text service =
    template (
      "Watchdog identified a stalled or unhealthy container and is restarting " ∷ service ∷ "."
      ∷ [])

normalize_event : DockerEvent → WatchdogEvent
normalize_event e = record {
  id = e.id;
  at = e.at;
  service = e.service;
  kind = recover;
  message =
      if to_lower (or_else e.action "") == "start" || to_lower (or_else e.reason "") == "exited"
      then starting_text e.service
      else restarting_text e.service;
}

abbrev not_empty {ℓ} : {A : Type ℓ} → Option (List A) → Option (List A)
not_empty none = none
not_empty (some []) = none
not_empty (some (x ∷ xs)) = some (x ∷ xs)

unfoldable pub normalize_docker_watchdog : DockerStatusJson → WatchdogPayload
unfolding normalize_event starting_text restarting_text
normalize_docker_watchdog status = record {
  source = docker;
  interval_sec = or_else status.interval_sec 15;
  last_tick_at = status.last_tick_at;
  instances_monitored = or_else status.instances_monitored 0;
  events = map normalize_event (or_else status.events []);
  log_tail = not_empty status.log_tail;
  error = none;
  heartbeat = none;
  api_activity = none;
}
