-- ===== src/Tick/Budget.antt =====
-- railway-watchdog-tick.ts: the counter of heartbeat redeployments of a deployment is limited.
use pe_hackathon.Base.{
  ℕ, ◌+◌, ◌≤◌, ◌≡◌, refl, Bool, true, false, Option, none, some, String, List, [], ◌∷◌, ◌==◌, arith,
  Bool-cases, Option-cases, inl, inr,
}
use pe_hackathon.Base.Store.{Store, get, put, delete, retain, get-put, get-delete, get-retain}
use pe_hackathon.Text.{template}
use pe_hackathon.Env.{Env}
use pe_hackathon.Visibility.Rows.{RailwayVisibilityRow}
use pe_hackathon.Tick.State.{
  Loop, Answers, WatchdogEvent, WatchdogPersistentState, WatchdogPrevEntry, HeartbeatRecoverState,
  push_log_line, push_activity, push_event, log_in, note_activity,
}
use pe_hackathon.Heartbeat.{build_heartbeat_probe_url}
use pe_hackathon.Tick.Settings.{heartbeat_max_recover_per_epoch, railway_heartbeat_enabled}
use pe_hackathon.Tick.Redeem.{redeem, request_deploy}
use pe_hackathon.Tick.Misses.{consider_recover, can_recover, current_state, touch}
use pe_hackathon.Tick.Probe.{heartbeat_row, probe_row, skip_row, conclude, beat, missed}
use pe_hackathon.Tick.AutoRecover.{forget_cooldown, auto_recover_row}
use pe_hackathon.Tick.Transitions.{transitions, report_stopped}
use pe_hackathon.Tick.Run.{
  TickInputs, visit, visit_all, remember, log_events, log_tick, forget_gone, note_query, finish,
  tick_rows, start,
}

module _ (env : Env) where
  -- No counter of heartbeat redeployments is above the limit of the settings.
  abbrev pub IsWithinBudget : Store HeartbeatRecoverState → Type 0
  IsWithinBudget m =
      (sid : String) (st : HeartbeatRecoverState)
      → get m sid ≡ some st
      → st.recoveries_used ≤ heartbeat_max_recover_per_epoch env

  put-IsWithinBudget :
      (m : Store HeartbeatRecoverState) (k : String) (v : HeartbeatRecoverState)
      → IsWithinBudget m
      → v.recoveries_used ≤ heartbeat_max_recover_per_epoch env
      → IsWithinBudget (put m k v)
  put-IsWithinBudget m k v h b sid st e = ground (arith, get-put m k sid v, h sid st)

  delete-IsWithinBudget :
      (m : Store HeartbeatRecoverState) (k : String)
      → IsWithinBudget m
      → IsWithinBudget (delete m k)
  delete-IsWithinBudget m k h sid st e = ground (arith, get-delete m k sid, h sid st)

  retain-IsWithinBudget :
      (ids : List String) (m : Store HeartbeatRecoverState)
      → IsWithinBudget m
      → IsWithinBudget (retain ids m)
  retain-IsWithinBudget ids m h sid st e = ground (arith, get-retain ids m sid, h sid st)

  touch-IsWithinBudget :
      (m : Store HeartbeatRecoverState) (k dep cur : String)
      → IsWithinBudget m
      → IsWithinBudget (touch m k dep cur)
  unfolding touch
  touch-IsWithinBudget m k dep cur h = elim (Option-cases (get m k)) [
    | inl e ↦ rw (e, touch) h
    | inr (old, e) ↦ elim (Bool-cases (old.deployment_id == dep)) [
      | inl same ↦ rw (e, touch) (rw same (put-IsWithinBudget m k _ h (h k old e)))
      | inr other ↦ rw (e, touch) (rw other h)
    ]
  ]

  pub current_state-le :
      (m : Store HeartbeatRecoverState) (k dep cur : String)
      → IsWithinBudget m
      → (current_state (get m k) dep cur).recoveries_used ≤ heartbeat_max_recover_per_epoch env
  unfolding current_state
  current_state-le m k dep cur h = elim (Option-cases (get m k)) [
    | inl e ↦ rw (e, current_state) (omega arith)
    | inr (old, e) ↦ ground (arith, h k old)
  ]

  module _ (now : String) (row : RailwayVisibilityRow) (a : Answers) where
    pub redeem-beats :
        (l : Loop)
        → ((redeem env now row a l).state).heartbeat_recover_state
          ≡ (l.state).heartbeat_recover_state
    unfolding redeem request_deploy note_activity push_event log_in
    redeem-beats l = ground arith

    consider_recover-beats :
        (st : HeartbeatRecoverState) (l : Loop)
        → (((consider_recover env now row a st l).1).state).heartbeat_recover_state
          ≡ (l.state).heartbeat_recover_state
    unfolding consider_recover request_deploy note_activity push_event log_in
    consider_recover-beats st l = ground arith

    -- A redeployment is counted, and is made below the limit alone.
    consider_recover-le :
        (st : HeartbeatRecoverState) (l : Loop)
        → st.recoveries_used ≤ heartbeat_max_recover_per_epoch env
        → (consider_recover env now row a st l).0.recoveries_used
          ≤ heartbeat_max_recover_per_epoch env
    unfolding consider_recover can_recover
    consider_recover-le st l h = ground arith

    pub beat-beats :
        (ok : Bool) (st : HeartbeatRecoverState) (l : Loop)
        → (((beat env now row a ok st l).1).state).heartbeat_recover_state
          ≡ (l.state).heartbeat_recover_state
    unfolding beat missed
    beat-beats true st l = refl
    beat-beats false st l = grind (arith, consider_recover-beats)

    beat-le :
        (ok : Bool) (st : HeartbeatRecoverState) (l : Loop)
        → st.recoveries_used ≤ heartbeat_max_recover_per_epoch env
        → (beat env now row a ok st l).0.recoveries_used ≤ heartbeat_max_recover_per_epoch env
    unfolding beat missed
    beat-le true st l h = h
    beat-le false st l h = grind (arith, consider_recover-le)

    probe_row-IsWithinBudget :
        (url : String) (st : HeartbeatRecoverState) (l : Loop)
        → IsWithinBudget (l.state).heartbeat_recover_state
        → st.recoveries_used ≤ heartbeat_max_recover_per_epoch env
        → IsWithinBudget ((probe_row env now row a url st l).state).heartbeat_recover_state
    unfolding probe_row conclude note_activity
    probe_row-IsWithinBudget url st l h b =
        rw (beat-beats _ st _) (put-IsWithinBudget _ _ _ h (beat-le _ st _ b))

    pub skip_row-beats :
        (l : Loop)
        → ((skip_row env row a l).state).heartbeat_recover_state
          ≡ delete (l.state).heartbeat_recover_state row.railway_service_id
    unfolding skip_row note_activity
    skip_row-beats l = ground arith

    heartbeat_row-IsWithinBudget :
        (l : Loop)
        → IsWithinBudget (l.state).heartbeat_recover_state
        → IsWithinBudget ((heartbeat_row env now row a l).state).heartbeat_recover_state
    unfolding heartbeat_row
    heartbeat_row-IsWithinBudget l h =
        let touched = touch-IsWithinBudget _ row.railway_service_id _ _ h in
        elim (Bool-cases (railway_heartbeat_enabled env)) [
          | inr off ↦ rw off touched
          | inl on ↦
              rw on
                (elim (Option-cases
                  (build_heartbeat_probe_url env row.railway_public_url row.service)) [
                    | inl unprobed ↦
                        rw (unprobed, heartbeat_row)
                          (rw (skip_row-beats _) (delete-IsWithinBudget _ _ touched))
                    | inr (url, probed) ↦
                        rw (probed, heartbeat_row)
                          (probe_row-IsWithinBudget url _ _ touched (current_state-le _ _ _ _ h))
                  ])
        ]

    pub auto_recover_row-beats :
        (l : Loop)
        → ((auto_recover_row env now row a l).state).heartbeat_recover_state
          ≡ (l.state).heartbeat_recover_state
    unfolding auto_recover_row request_deploy note_activity push_event log_in
    auto_recover_row-beats l = ground arith

    pub forget_cooldown-beats :
        (l : Loop)
        → ((forget_cooldown row l).state).heartbeat_recover_state
          ≡ (l.state).heartbeat_recover_state
    unfolding forget_cooldown
    forget_cooldown-beats l = ground arith

    pub transitions-beats :
        (before : Option WatchdogPrevEntry) (l : Loop)
        → ((transitions now row a before l).state).heartbeat_recover_state
          ≡ (l.state).heartbeat_recover_state
    unfolding transitions report_stopped push_event log_in
    transitions-beats none l = refl
    transitions-beats (some before) l = ground arith

    visit-IsWithinBudget :
        (l : Loop)
        → IsWithinBudget (l.state).heartbeat_recover_state
        → IsWithinBudget ((visit env now row a l).state).heartbeat_recover_state
    unfolding visit remember
    visit-IsWithinBudget l h =
        rw (transitions-beats _ _, auto_recover_row-beats _, forget_cooldown-beats _)
          (heartbeat_row-IsWithinBudget _ (rw (redeem-beats l) h))

  visit_all-IsWithinBudget :
      (now : String) (answers : ℕ → Answers) (i : ℕ) (rows : List RailwayVisibilityRow) (l : Loop)
      → IsWithinBudget (l.state).heartbeat_recover_state
      → IsWithinBudget ((visit_all env now answers i rows l).state).heartbeat_recover_state
  unfolding visit_all
  visit_all-IsWithinBudget now answers i [] l h = h
  visit_all-IsWithinBudget now answers i (row ∷ rows) l h =
      visit_all-IsWithinBudget now answers (i + 1) rows _
        (visit-IsWithinBudget now row (answers i) l h)

log_events-beats :
    (evs : List WatchdogEvent) (s : WatchdogPersistentState)
    → (log_events evs s).heartbeat_recover_state ≡ s.heartbeat_recover_state
unfolding log_events push_log_line
log_events-beats [] s = refl
log_events-beats (ev ∷ evs) s =
    log_events-beats evs (push_log_line s (template ("  " ∷ ev.message ∷ [])))

pub log_tick-beats :
    (now : String) (rows : List RailwayVisibilityRow) (evs : List WatchdogEvent)
    (s : WatchdogPersistentState)
    → (log_tick now rows evs s).heartbeat_recover_state ≡ s.heartbeat_recover_state
unfolding log_tick push_log_line
log_tick-beats now rows evs s = grind (arith, log_events-beats)

pub tick_rows-IsWithinBudget :
    (env : Env) (w : TickInputs) (rows : List RailwayVisibilityRow) (error : Option String)
    (s : WatchdogPersistentState)
    → IsWithinBudget env s.heartbeat_recover_state
    → IsWithinBudget env (tick_rows env w rows error s).state.heartbeat_recover_state
unfolding tick_rows note_query push_activity finish forget_gone
tick_rows-IsWithinBudget env w rows (some msg) s h = h
tick_rows-IsWithinBudget env w rows none s h = rw (log_tick-beats _ _ _ _) (
    retain-IsWithinBudget env _ _
      (visit_all-IsWithinBudget env w.now w.answers 0 rows (start (note_query w none s)) h))
