-- ===== src/Tick/Bounds.antt =====
-- railway-watchdog-tick.ts: the ring buffers and the payload stay within their limits.
use pe_hackathon.Base.{
  ℕ, ◌+◌, ◌≤◌, Bool, true, false, Option, none, some, String, List, [], ◌∷◌, arith, length,
  length-push_bounded-le, length-take-le,
}
use pe_hackathon.Env.{Env}
use pe_hackathon.Visibility.Rows.{RailwayVisibilityRow}
use pe_hackathon.Tick.State.{
  Loop, Answers, WatchdogEvent, WatchdogPersistentState, WatchdogPrevEntry, HeartbeatRecoverState,
  log_tail_max, api_activity_max, push_log_line, push_activity, push_event, log_in, note_activity,
}
use pe_hackathon.Tick.Redeem.{redeem, request_deploy}
use pe_hackathon.Tick.Misses.{consider_recover}
use pe_hackathon.Tick.Probe.{heartbeat_row, probe_row, skip_row, conclude, beat, missed}
use pe_hackathon.Tick.AutoRecover.{forget_cooldown, auto_recover_row}
use pe_hackathon.Tick.Transitions.{transitions, report_stopped}
use pe_hackathon.Tick.Run.{
  TickInputs, visit, visit_all, remember, log_events, log_tick, forget_gone, finish, tick_rows,
  start, run_railway_watchdog_tick,
}

-- The two ring buffers hold no more than their sizes.
pub record IsBounded (s : WatchdogPersistentState) : Type 0 where
  pub log : length s.log_tail ≤ log_tail_max
  pub activity : length s.api_activity ≤ api_activity_max

module _ (env : Env) (now : String) (row : RailwayVisibilityRow) (a : Answers) where
  redeem-IsBounded : (l : Loop) → IsBounded l.state → IsBounded (redeem env now row a l).state
  unfolding redeem request_deploy note_activity push_event log_in
  redeem-IsBounded l h = grind (arith, length-push_bounded-le)

  consider_recover-IsBounded :
      (st : HeartbeatRecoverState) (l : Loop)
      → IsBounded l.state
      → IsBounded ((consider_recover env now row a st l).1).state
  unfolding consider_recover request_deploy note_activity push_event log_in
  consider_recover-IsBounded st l h = grind (arith, length-push_bounded-le)

  beat-IsBounded :
      (ok : Bool) (st : HeartbeatRecoverState) (l : Loop)
      → IsBounded l.state
      → IsBounded ((beat env now row a ok st l).1).state
  unfolding beat missed
  beat-IsBounded true st l h = h
  beat-IsBounded false st l h = grind (arith, consider_recover-IsBounded)

  probe_row-IsBounded :
      (url : String) (st : HeartbeatRecoverState) (l : Loop)
      → IsBounded l.state
      → IsBounded (probe_row env now row a url st l).state
  unfolding probe_row conclude note_activity
  probe_row-IsBounded url st l h =
      let b =
        beat-IsBounded _ st _ (record { log = h.log; activity = length-push_bounded-le _ _ _ }) in
      record { log = b.log; activity = b.activity }

  heartbeat_row-IsBounded :
      (l : Loop) → IsBounded l.state → IsBounded (heartbeat_row env now row a l).state
  unfolding heartbeat_row skip_row note_activity
  heartbeat_row-IsBounded l h = grind (arith, probe_row-IsBounded, length-push_bounded-le)

  auto_recover_row-IsBounded :
      (l : Loop) → IsBounded l.state → IsBounded (auto_recover_row env now row a l).state
  unfolding auto_recover_row request_deploy note_activity push_event log_in
  auto_recover_row-IsBounded l h = grind (arith, length-push_bounded-le)

  forget_cooldown-IsBounded :
      (l : Loop) → IsBounded l.state → IsBounded (forget_cooldown row l).state
  unfolding forget_cooldown
  forget_cooldown-IsBounded l h = ground arith

  transitions-IsBounded :
      (before : Option WatchdogPrevEntry) (l : Loop)
      → IsBounded l.state
      → IsBounded (transitions now row a before l).state
  unfolding transitions report_stopped push_event log_in
  transitions-IsBounded none l h = h
  transitions-IsBounded (some before) l h = grind (arith, length-push_bounded-le)

  visit-IsBounded : (l : Loop) → IsBounded l.state → IsBounded (visit env now row a l).state
  unfolding visit remember
  visit-IsBounded l h =
      let b = transitions-IsBounded _ _ (
        auto_recover_row-IsBounded _
          (forget_cooldown-IsBounded _ (heartbeat_row-IsBounded _ (redeem-IsBounded l h)))) in
      record { log = b.log; activity = b.activity }

visit_all-IsBounded :
    (env : Env) (now : String) (answers : ℕ → Answers) (i : ℕ) (rows : List RailwayVisibilityRow)
    (l : Loop)
    → IsBounded l.state
    → IsBounded (visit_all env now answers i rows l).state
unfolding visit_all
visit_all-IsBounded env now answers i [] l h = h
visit_all-IsBounded env now answers i (row ∷ rows) l h =
    visit_all-IsBounded env now answers (i + 1) rows _ (visit-IsBounded env now row (answers i) l h)

push_log_line-IsBounded :
    (s : WatchdogPersistentState) (line : String) → IsBounded s → IsBounded (push_log_line s line)
unfolding push_log_line
push_log_line-IsBounded s line h = record {
  log = length-push_bounded-le _ _ _;
  activity = h.activity;
}

log_events-IsBounded :
    (evs : List WatchdogEvent) (s : WatchdogPersistentState)
    → IsBounded s
    → IsBounded (log_events evs s)
unfolding log_events
log_events-IsBounded [] s h = h
log_events-IsBounded (ev ∷ evs) s h = log_events-IsBounded evs _ (push_log_line-IsBounded s _ h)

log_tick-IsBounded :
    (now : String) (rows : List RailwayVisibilityRow) (evs : List WatchdogEvent)
    (s : WatchdogPersistentState)
    → IsBounded s
    → IsBounded (log_tick now rows evs s)
unfolding log_tick
log_tick-IsBounded now rows evs s h = grind (arith, push_log_line-IsBounded, log_events-IsBounded)

tick_rows-IsBounded :
    (env : Env) (w : TickInputs) (rows : List RailwayVisibilityRow) (error : Option String)
    (s : WatchdogPersistentState)
    → IsBounded s
    → IsBounded (tick_rows env w rows error s).state
unfolding tick_rows push_activity
tick_rows-IsBounded env w rows (some msg) s h = record {
  log = h.log;
  activity = length-push_bounded-le _ _ _;
}
tick_rows-IsBounded env w rows none s h =
    unfold finish forget_gone in
    let b =
      visit_all-IsBounded env w.now w.answers 0 rows (start _)
        (record { log = h.log; activity = length-push_bounded-le _ _ _ }) in
    log_tick-IsBounded _ _ _ _ (record { log = b.log; activity = b.activity })

events-le :
    (env : Env) (w : TickInputs) (rows : List RailwayVisibilityRow) (error : Option String)
    (s : WatchdogPersistentState)
    → length ((tick_rows env w rows error s).payload).events ≤ 30
unfolding tick_rows finish
events-le env w rows (some msg) s = omega arith
events-le env w rows none s = length-take-le 30 _

-- Whatever Railway and the services answer, a tick keeps the log tail within 40 lines and the API
-- activity within 48 entries if they were, and its payload has 30 events at most.
pub tick-IsBounded :
    (env : Env) (w : TickInputs) (s : WatchdogPersistentState)
    → IsBounded s
    → IsBounded (run_railway_watchdog_tick env w s).state
      × (length ((run_railway_watchdog_tick env w s).payload).events ≤ 30)
unfolding run_railway_watchdog_tick
tick-IsBounded env w s h = (tick_rows-IsBounded env w _ _ s h, events-le env w _ _ s)
