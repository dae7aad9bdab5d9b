-- ===== src/Tick/Outsiders.antt =====
-- railway-watchdog-tick.ts: a round over a row leaves the lifecycle of other services as it is.
use pe_hackathon.Base.{
  ◌≡◌, refl, ap, ◌∙◌, Bool, true, false, Option, none, some, String, List, [], ◌∷◌, arith, ◌==◌,
}
use pe_hackathon.Base.Store.{get-put, get-delete}
use pe_hackathon.Env.{Env}
use pe_hackathon.Lifecycle.{
  HeartbeatExitLifecycleState, clear_exit_lifecycle_redeem_flag, clear_exit_lifecycle_for_service,
  requeue_exit_lifecycle_redeem,
}
use pe_hackathon.Lifecycle.Streaks.{view, probe-view_ne}
use pe_hackathon.Visibility.Rows.{RailwayVisibilityRow}
use pe_hackathon.Tick.State.{
  Loop, Answers, push_event, log_in, note_activity, HeartbeatRecoverState, WatchdogPrevEntry,
}
use pe_hackathon.Tick.Redeem.{redeem, request_deploy}
use pe_hackathon.Tick.Misses.{consider_recover}
use pe_hackathon.Tick.Probe.{heartbeat_row, probe_row, skip_row, conclude, beat, missed}
use pe_hackathon.Tick.AutoRecover.{forget_cooldown, auto_recover_row}
use pe_hackathon.Tick.Transitions.{transitions, report_stopped}
use pe_hackathon.Tick.Run.{visit, remember}

-- The rows before a row, which are all of other services.
abbrev pub OtherRows : String → List RailwayVisibilityRow → Type 0
OtherRows sid [] = Unit {0}
OtherRows sid (row ∷ rows) = ((row.railway_service_id == sid) ≡ false) × OtherRows sid rows

abbrev pub lifecycle : Loop → HeartbeatExitLifecycleState
lifecycle l = (l.state).heartbeat_exit_lifecycle

-- A round over another service is not seen in the maps of a service.
module _ (env : Env) (now : String) (row : RailwayVisibilityRow) (a : Answers) (sid : String)
    (ne : (row.railway_service_id == sid) ≡ false) where
  redeem-view_ne :
      (l : Loop) → view (lifecycle (redeem env now row a l)) sid ≡ view (lifecycle l) sid
  unfolding redeem request_deploy note_activity push_event log_in clear_exit_lifecycle_redeem_flag
      clear_exit_lifecycle_for_service requeue_exit_lifecycle_redeem view
  redeem-view_ne l = grind (arith, get-put, get-delete)

  consider_recover-lifecycle :
      (st : HeartbeatRecoverState) (l : Loop)
      → lifecycle (consider_recover env now row a st l).1 ≡ lifecycle l
  unfolding consider_recover request_deploy note_activity push_event log_in
  consider_recover-lifecycle st l = ground arith

  beat-lifecycle :
      (ok : Bool) (st : HeartbeatRecoverState) (l : Loop)
      → lifecycle (beat env now row a ok st l).1 ≡ lifecycle l
  unfolding beat missed
  beat-lifecycle true st l = refl
  beat-lifecycle false st l = grind (arith, consider_recover-lifecycle)

  probe_row-view_ne :
      (url : String) (st : HeartbeatRecoverState) (l : Loop)
      → view (lifecycle (probe_row env now row a url st l)) sid ≡ view (lifecycle l) sid
  unfolding probe_row conclude note_activity
  probe_row-view_ne url st l =
      probe-view_ne env true _ row.railway_service_id _ sid _ _ ne
      ∙ ap (λ s. view s sid) (beat-lifecycle _ st _)

  heartbeat_row-view_ne :
      (l : Loop) → view (lifecycle (heartbeat_row env now row a l)) sid ≡ view (lifecycle l) sid
  unfolding heartbeat_row skip_row note_activity
  heartbeat_row-view_ne l = grind (arith, probe_row-view_ne)

  auto_recover_row-lifecycle :
      (l : Loop) → lifecycle (auto_recover_row env now row a l) ≡ lifecycle l
  unfolding auto_recover_row request_deploy note_activity push_event log_in
  auto_recover_row-lifecycle l = ground arith

  forget_cooldown-lifecycle : (l : Loop) → lifecycle (forget_cooldown row l) ≡ lifecycle l
  unfolding forget_cooldown
  forget_cooldown-lifecycle l = ground arith

  transitions-lifecycle :
      (before : Option WatchdogPrevEntry) (l : Loop)
      → lifecycle (transitions now row a before l) ≡ lifecycle l
  unfolding transitions report_stopped push_event log_in
  transitions-lifecycle none l = refl
  transitions-lifecycle (some before) l = ground arith

  pub visit-view_ne :
      (l : Loop) → view (lifecycle (visit env now row a l)) sid ≡ view (lifecycle l) sid
  unfolding visit remember
  visit-view_ne l =
      rw (transitions-lifecycle _ _, auto_recover_row-lifecycle _, forget_cooldown-lifecycle _)
        (heartbeat_row-view_ne _ ∙ redeem-view_ne l)
