-- ===== src/Tests/Tick.antt =====
-- The theorems about a tick.
use pe_hackathon.Base.{
  ◌+◌, ◌≤◌, ◌≡◌, refl, true, false, none, some, [], ◌∷◌, arith, length, if◌then◌else◌, List, ◌==◌,
  has,
}
use pe_hackathon.Base.Store.{get}
use pe_hackathon.Lifecycle.Streaks.{view, streak}
use pe_hackathon.Lifecycle.{create_heartbeat_exit_lifecycle_state, verdict}
use pe_hackathon.Visibility.Status.{online, deploying}
use pe_hackathon.Tick.State.{
  create_empty_watchdog_state, auto_redeploy, HeartbeatSummary, WatchdogPrevEntry,
  WatchdogPersistentState,
}
use pe_hackathon.Tick.Settings.{railway_heartbeat_enabled}
use pe_hackathon.Tick.Run.{TickInputs, tick_rows, run_railway_watchdog_tick, visit}
use pe_hackathon.Tick.AutoRecover.{auto_recover_triggered, cooling_down}
use pe_hackathon.Tick.Requests.{Serves, tick_rows-Serves, deploys}
use pe_hackathon.Tick.Cooldown.{auto_redeploy_pause}
use pe_hackathon.Tick.Redeployments.{Poll, Watched, own, other, finished, redeployed, redeployed-le}
use pe_hackathon.Tick.Balance.{used}
use pe_hackathon.Tick.Quiet.{transitions-visit}
use pe_hackathon.Lifecycle.History.{Change, probed, unflagged, changed, Probes, Offline}
use pe_hackathon.Lifecycle.History as History
use pe_hackathon.Tick.Bounds.{IsBounded, tick-IsBounded}
use pe_hackathon.Tick.Memory.{get-tick_rows, last_entry}
use pe_hackathon.Tick.Accounting.{heartbeat_summary}
use pe_hackathon.Tick.Events.{kinds, deploy_count, deploy_count-transitions}
use pe_hackathon.Tick.Transitions.{transitions}
use pe_hackathon.Tick.Scheduled.{IsReady, IsAsked}
use pe_hackathon.Tick.ExitRedeploy.{exited_is_redeployed, redeem_outlives_exit}
use pe_hackathon.Env.{Env}
use pe_hackathon.Text.{to_lower}
use pe_hackathon.Heartbeat.{
  build_heartbeat_probe_url, heartbeat_path_for_service, probe_url_for,
  should_use_private_railway_heartbeat, strip_slashes, normalize_public_url_for_fetch,
}
use pe_hackathon.Tick.Settings.{heartbeat_max_recover_per_epoch}
use pe_hackathon.Tick.Run.{service_ids}
use pe_hackathon.Tests.Fixtures.{
  env, crashed_row, healthy_row, answers_at, inputs, missed_beat, loop_with, settings_read,
}

tick_rows-Serves_example :
    Serves env
      (crashed_row ∷ healthy_row ∷ [])
      (tick_rows env inputs
        (crashed_row ∷ healthy_row ∷ [])
        none
        create_empty_watchdog_state).requests
tick_rows-Serves_example =
    tick_rows-Serves env inputs (crashed_row ∷ healthy_row ∷ []) create_empty_watchdog_state

auto_redeploy_pause_example :
    ((visit env "t" crashed_row
        (answers_at 100000)
        (loop_with create_empty_watchdog_state)).requests
      ≡ deploys env crashed_row auto_redeploy ∷ [])
    × ((visit env "u" crashed_row (answers_at 149999) (
          loop_with
            (visit env "t" crashed_row
              (answers_at 100000)
              (loop_with create_empty_watchdog_state)).state)).requests
        ≡ [])
unfolding settings_read auto_recover_triggered cooling_down create_empty_watchdog_state
auto_redeploy_pause_example =
    auto_redeploy_pause env "t" "u" crashed_row crashed_row (answers_at 100000) (answers_at 149999)
      (loop_with create_empty_watchdog_state)
      (loop_with
        (visit env "t" crashed_row (answers_at 100000)
          (loop_with create_empty_watchdog_state)).state)
      refl refl refl refl refl refl (omega arith)

tick-IsBounded_example :
    IsBounded (run_railway_watchdog_tick env inputs create_empty_watchdog_state).state
    × (length (run_railway_watchdog_tick env inputs create_empty_watchdog_state).payload.events
        ≤ 30)
unfolding create_empty_watchdog_state
tick-IsBounded_example = tick-IsBounded env inputs create_empty_watchdog_state (omega arith)

get-tick_rows_example :
    get
      (tick_rows env inputs
        (crashed_row ∷ healthy_row ∷ [])
        none
        create_empty_watchdog_state).state.prev
      "ui"
    ≡ last_entry (crashed_row ∷ healthy_row ∷ []) "ui"
get-tick_rows_example =
    get-tick_rows env inputs (crashed_row ∷ healthy_row ∷ []) create_empty_watchdog_state "ui"

heartbeat_summary_example :
    (h : HeartbeatSummary) × ((tick_rows env inputs
        (healthy_row ∷ [])
        none
        create_empty_watchdog_state).payload.heartbeat
      ≡ some h)
    × (h.enabled ≡ railway_heartbeat_enabled env)
    × (h.probes ≡ h.ok + h.failed)
    × (h.probes + h.skipped ≡ (if railway_heartbeat_enabled env then 1 else 0))
heartbeat_summary_example =
    heartbeat_summary env inputs (healthy_row ∷ []) create_empty_watchdog_state

-- The crashed row as it was, and as it comes back with a new deployment.
abbrev crashed_before : WatchdogPrevEntry
crashed_before = record {
  deployment_status = "CRASHED";
  deployment_id = "dep-0";
  online_status = crashed_row.railway_online_status;
}

deploy_count-transitions_example :
    deploy_count (
      kinds
        (transitions "t" healthy_row
          (answers_at 5)
          (some crashed_before)
          (loop_with create_empty_watchdog_state)).events)
    ≤ 1
unfolding deploy_count
deploy_count-transitions_example =
    deploy_count-transitions "t" healthy_row (answers_at 5) (some crashed_before)
      (loop_with create_empty_watchdog_state)

-- The row is crashed in both rounds.
transitions-visit_example :
    transitions "u" crashed_row
      (answers_at 9)
      (get
        ((visit env "t" crashed_row (answers_at 5) (loop_with create_empty_watchdog_state)).state
          ).prev
        "lb")
      (loop_with create_empty_watchdog_state)
    ≡ loop_with create_empty_watchdog_state
unfolding to_lower
transitions-visit_example =
    transitions-visit env "t" "u" crashed_row (answers_at 5) (answers_at 9)
      (loop_with create_empty_watchdog_state) (loop_with create_empty_watchdog_state) refl

-- The frontend's probe fails twice, and another service's redeployment is taken off in between.
abbrev exited_changes : List Change
exited_changes =
    probed "ui" "dep-2" online (some missed_beat) true
    ∷ unflagged "lb"
    ∷ probed "ui" "dep-2" online (some missed_beat) true
    ∷ []

exited_changes-Probes : Probes "ui" "dep-2" (missed_beat ∷ missed_beat ∷ []) exited_changes
exited_changes-Probes =
    History.Probes.own (History.Probes.other refl (History.Probes.own History.Probes.finished))

abbrev exited_state : WatchdogPersistentState
exited_state = record create_empty_watchdog_state {
  heartbeat_exit_lifecycle = changed env create_heartbeat_exit_lifecycle_state exited_changes;
}

ready : IsReady env healthy_row
unfolding settings_read
ready = record {
  heartbeats = refl;
  redeploys = refl;
  recovers = refl;
  healthy = refl;
  steady = refl;
  deployed = refl;
}

exited_is_redeployed_example :
    IsAsked env inputs.now healthy_row
      (tick_rows env inputs (crashed_row ∷ healthy_row ∷ []) none exited_state).requests
unfolding settings_read streak create_heartbeat_exit_lifecycle_state verdict
exited_is_redeployed_example =
    exited_is_redeployed env inputs "dep-2" (crashed_row ∷ []) [] healthy_row exited_state
      create_heartbeat_exit_lifecycle_state missed_beat (missed_beat ∷ []) exited_changes (λ e. cc)
      exited_changes-Probes refl refl (refl, tt) ready

-- The same, and then the frontend deploys again.
abbrev restarted_state : WatchdogPersistentState
restarted_state = record create_empty_watchdog_state {
  heartbeat_exit_lifecycle =
      changed env (changed env create_heartbeat_exit_lifecycle_state exited_changes)
        (probed "ui" "dep-2" deploying none true ∷ []);
}

redeem_outlives_exit_example :
    ((view restarted_state.heartbeat_exit_lifecycle "ui").fails ≡ 0)
    × ((view restarted_state.heartbeat_exit_lifecycle "ui").is_exited ≡ false)
    × IsAsked env inputs.now healthy_row
        (tick_rows env inputs (crashed_row ∷ healthy_row ∷ []) none restarted_state).requests
unfolding settings_read streak create_heartbeat_exit_lifecycle_state verdict
redeem_outlives_exit_example =
    redeem_outlives_exit env inputs "dep-2" (crashed_row ∷ []) [] healthy_row restarted_state
      create_heartbeat_exit_lifecycle_state missed_beat (missed_beat ∷ []) exited_changes []
      deploying none true (λ e. cc) exited_changes-Probes refl refl History.Offline.finished refl
      (refl, tt) ready

-- Redeployments for missed beats are on, and those of exited services are off.
abbrev beat_env : Env
beat_env key =
    if key == "RAILWAY_HEARTBEAT_EXIT_REDEPLOY"
    then some "0"
    else if key == "RAILWAY_HEARTBEAT_RECOVER"
    then some "1"
    else env key

abbrev late : TickInputs
late = record inputs { answers = λ i. answers_at 4000000 }

abbrev poll : Poll
poll = record { inputs = late; rows = crashed_row ∷ healthy_row ∷ []; error = none }

abbrev failed_poll : Poll
failed_poll = record { inputs = inputs; rows = []; error = some "timeout" }

redeployed-le_example :
    used "ui" "dep-2" create_empty_watchdog_state.heartbeat_recover_state
      + redeployed beat_env "ui" "dep-2"
          (poll ∷ failed_poll ∷ poll ∷ poll ∷ poll ∷ poll ∷ [])
          create_empty_watchdog_state
    ≤ heartbeat_max_recover_per_epoch beat_env
unfolding settings_read create_empty_watchdog_state build_heartbeat_probe_url service_ids has
    heartbeat_path_for_service probe_url_for should_use_private_railway_heartbeat strip_slashes
    normalize_public_url_for_fetch
redeployed-le_example =
    redeployed-le beat_env "ui" "dep-2" (poll ∷ failed_poll ∷ poll ∷ poll ∷ poll ∷ poll ∷ [])
      create_empty_watchdog_state (λ sid st e. cc) (once, (tt, (once, (once, (once, (once, tt))))))
  where
    once :
        (has (service_ids poll.rows) "ui" ≡ true)
        × Watched beat_env "ui" "dep-2" late.answers 0 poll.rows
    once = (
      refl,
      other refl
          (own {row = healthy_row} {url = "https://ui.example.com/"} refl refl refl refl finished),
    )
