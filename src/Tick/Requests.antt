-- ===== src/Tick/Requests.antt =====
-- railway-watchdog-tick.ts: which deployments a tick asks for.
use mathlib.Core.List.{append-nil, append_assoc}
use pe_hackathon.Base.{
  ℕ, ◌+◌, ◌≡◌, refl, sym, ◌∙◌, ◌⊎◌, inl, inr, Bool, true, false, Option, none, some, String, List,
  [], ◌∷◌, ◌++◌, arith, eq_iff,
}
use pe_hackathon.Base.Store.{get}
use pe_hackathon.Text.{to_upper}
use pe_hackathon.Env.{Env}
use pe_hackathon.Lifecycle.{railway_heartbeat_exit_redeploy_enabled}
use pe_hackathon.Visibility.Halt.{Mutation, service_instance_deploy}
use pe_hackathon.Visibility.Rows.{RailwayVisibilityRow}
use pe_hackathon.Tick.State.{
  Loop, Answers, DeploySite, exit_redeploy, heartbeat_redeploy, auto_redeploy,
  WatchdogPersistentState, WatchdogPrevEntry, HeartbeatRecoverState, push_event, log_in,
  note_activity,
}
use pe_hackathon.Tick.Settings.{auto_recover, environment_id_of, railway_heartbeat_recover_enabled}
use pe_hackathon.Tick.Status.{is_healthy, is_deploying, needs_auto_recover_trigger, current_status}
use pe_hackathon.Tick.Redeem.{redeem, redeem_due, request_deploy}
use pe_hackathon.Tick.Misses.{consider_recover}
use pe_hackathon.Tick.Probe.{
  heartbeat_row, probe_row, skip_row, conclude, beat, missed, recover_watched,
}
use pe_hackathon.Tick.AutoRecover.{forget_cooldown, auto_recover_row, auto_recover_triggered}
use pe_hackathon.Tick.Transitions.{transitions, report_stopped}
use pe_hackathon.Tick.Run.{
  TickInputs, visit, visit_all, remember, note_query, finish, tick_rows, start,
}

abbrev pub Request : Type 0
Request = DeploySite × Mutation

-- The request that a site makes for a row.
abbrev pub deploys : Env → RailwayVisibilityRow → DeploySite → Request
deploys env row site =
    (site, service_instance_deploy (environment_id_of env) row.railway_service_id)

-- What must hold of a row for a site to ask for its deployment.
abbrev pub IsWarranted : Env → RailwayVisibilityRow → DeploySite → Type 0
IsWarranted env row exit_redeploy =
    (auto_recover env ≡ true)
    × (railway_heartbeat_exit_redeploy_enabled env ≡ true)
    × (is_healthy (current_status row) ≡ true)
    × (is_deploying (current_status row) ≡ false)
IsWarranted env row heartbeat_redeploy =
    (auto_recover env ≡ true)
    × (railway_heartbeat_exit_redeploy_enabled env ≡ false)
    × (railway_heartbeat_recover_enabled env ≡ true)
    × (is_healthy (current_status row) ≡ true)
    × (is_deploying (current_status row) ≡ false)
IsWarranted env row auto_redeploy =
    (auto_recover env ≡ true) × (needs_auto_recover_trigger (current_status row) ≡ true)

-- From `before` to `after`, at most one warranted request for the row was made.
abbrev pub Asks : Env → RailwayVisibilityRow → List Request → List Request → Type 0
Asks env row before after =
    (after ≡ before)
    ⊎ ((site : DeploySite) × (after ≡ before ++ deploys env row site ∷ [])
        × IsWarranted env row site)

module _ (env : Env) (now : String) (row : RailwayVisibilityRow) (a : Answers) where
  pub redeem-requests :
      (l : Loop)
      → ((redeem env now row a l).requests ≡ l.requests)
        ⊎ (((redeem env now row a l).requests ≡ l.requests ++ deploys env row exit_redeploy ∷ [])
            × IsWarranted env row exit_redeploy)
  unfolding redeem request_deploy redeem_due note_activity push_event log_in
  redeem-requests l = ground arith

  consider_recover-requests :
      (st : HeartbeatRecoverState) (l : Loop)
      → ((consider_recover env now row a st l).1.requests ≡ l.requests)
        ⊎ ((consider_recover env now row a st l).1.requests
            ≡ l.requests ++ deploys env row heartbeat_redeploy ∷ [])
  unfolding consider_recover request_deploy note_activity push_event log_in
  consider_recover-requests st l = ground arith

  beat-requests :
      (ok : Bool) (st : HeartbeatRecoverState) (l : Loop)
      → ((beat env now row a ok st l).1.requests ≡ l.requests)
        ⊎ (((beat env now row a ok st l).1.requests
              ≡ l.requests ++ deploys env row heartbeat_redeploy ∷ [])
            × IsWarranted env row heartbeat_redeploy)
  unfolding beat missed recover_watched
  beat-requests true st l = inl refl
  beat-requests false st l = ground (
    arith,
    consider_recover-requests (record st { consecutive_misses = st.consecutive_misses + 1 })
        (record l { hb_fail = l.hb_fail + 1 }),
  )

  probe_row-requests :
      (url : String) (st : HeartbeatRecoverState) (l : Loop)
      → ((probe_row env now row a url st l).requests ≡ l.requests)
        ⊎ (((probe_row env now row a url st l).requests
              ≡ l.requests ++ deploys env row heartbeat_redeploy ∷ [])
            × IsWarranted env row heartbeat_redeploy)
  unfolding probe_row conclude note_activity
  probe_row-requests url st l = beat-requests _ st _

  pub heartbeat_row-requests :
      (l : Loop)
      → ((heartbeat_row env now row a l).requests ≡ l.requests)
        ⊎ (((heartbeat_row env now row a l).requests
              ≡ l.requests ++ deploys env row heartbeat_redeploy ∷ [])
            × IsWarranted env row heartbeat_redeploy)
  unfolding heartbeat_row skip_row note_activity
  heartbeat_row-requests l = grind (arith, probe_row-requests)

  pub auto_recover_row-requests :
      (l : Loop)
      → ((auto_recover_row env now row a l).requests ≡ l.requests)
        ⊎ (((auto_recover_row env now row a l).requests
              ≡ l.requests ++ deploys env row auto_redeploy ∷ [])
            × IsWarranted env row auto_redeploy)
  unfolding auto_recover_row auto_recover_triggered request_deploy note_activity push_event log_in
  auto_recover_row-requests l = ground arith

  pub forget_cooldown-requests : (l : Loop) → (forget_cooldown row l).requests ≡ l.requests
  unfolding forget_cooldown
  forget_cooldown-requests l = ground arith

  pub transitions-requests :
      (before : Option WatchdogPrevEntry) (l : Loop)
      → (transitions now row a before l).requests ≡ l.requests
  unfolding transitions report_stopped push_event log_in
  transitions-requests none l = refl
  transitions-requests (some before) l = ground arith

-- A healthy status does not trigger the automatic recovery.
pub healthy_untriggered :
    (s : String) → is_healthy s ≡ true → needs_auto_recover_trigger s ≡ true → ⊥
unfolding is_healthy needs_auto_recover_trigger
healthy_untriggered s h t = ground (
  arith,
  eq_iff (to_upper s) "CRASHED",
  eq_iff (to_upper s) "FAILED",
  eq_iff (to_upper s) "SUCCESS",
  eq_iff (to_upper s) "SLEEPING",
  eq_iff "CRASHED" "SUCCESS",
  eq_iff "CRASHED" "SLEEPING",
  eq_iff "FAILED" "SUCCESS",
  eq_iff "FAILED" "SLEEPING",
)

pub visit-Asks :
    (env : Env) (now : String) (row : RailwayVisibilityRow) (a : Answers) (l : Loop)
    → Asks env row l.requests (visit env now row a l).requests
unfolding visit remember
visit-Asks env now row a l =
    let l₁ = redeem env now row a l in
    let l₂ = heartbeat_row env now row a l₁ in
    let l₃ = forget_cooldown row l₂ in
    let l₄ = auto_recover_row env now row a l₃ in
    let kept = forget_cooldown-requests env now row a l₂ in
    let ended = transitions-requests env now row a (get (l.state).prev row.railway_service_id) l₄ in
    elim (redeem-requests env now row a l) [
      | inl e₁ ↦ elim (heartbeat_row-requests env now row a l₁) [
        | inl e₂ ↦ elim (auto_recover_row-requests env now row a l₃) [
          | inl e₃ ↦ inl (ended ∙ e₃ ∙ kept ∙ e₂ ∙ e₁)
          | inr (e₃, w) ↦ inr (auto_redeploy, cc, w)
        ]
        | inr (e₂, w) ↦ elim (auto_recover_row-requests env now row a l₃) [
          | inl e₃ ↦ inr (heartbeat_redeploy, cc, w)
          | inr (e₃, w') ↦ absurd (healthy_untriggered (current_status row) w.3 w'.1)
        ]
      ]
      | inr (e₁, w) ↦ elim (heartbeat_row-requests env now row a l₁) [
        | inl e₂ ↦ elim (auto_recover_row-requests env now row a l₃) [
          | inl e₃ ↦ inr (exit_redeploy, cc, w)
          | inr (e₃, w') ↦ absurd (healthy_untriggered (current_status row) w.2 w'.1)
        ]
        | inr (e₂, w') ↦ absurd (cc (w.1, w'.1))
      ]
    ]

-- The requests of a tick over rows: in the rows' order, at most one for a row, each warranted.
pub data Serves (env : Env) : List RailwayVisibilityRow → List Request → Type 0 where
  done : Serves env [] []
  pass :
      {row : RailwayVisibilityRow} {rows : List RailwayVisibilityRow} {rs : List Request}
      → Serves env rows rs
      → Serves env (row ∷ rows) rs
  ask :
      {row : RailwayVisibilityRow} {rows : List RailwayVisibilityRow} {rs : List Request}
      → (site : DeploySite) → IsWarranted env row site
      → Serves env rows rs
      → Serves env (row ∷ rows) (deploys env row site ∷ rs)

pub visit_all-Serves :
    (env : Env) (now : String) (answers : ℕ → Answers) (i : ℕ) (rows : List RailwayVisibilityRow)
    (l : Loop)
    → (rs : List Request) × ((visit_all env now answers i rows l).requests ≡ l.requests ++ rs)
      × Serves env rows rs
unfolding visit_all
visit_all-Serves env now answers i [] l = ([], sym (append-nil _), done)
visit_all-Serves env now answers i (row ∷ rows) l =
    let next = visit env now row (answers i) l in
    let (rs, e, s) = visit_all-Serves env now answers (i + 1) rows next in
    elim (visit-Asks env now row (answers i) l) [
      | inl same ↦ (rs, e ∙ rw same, pass s)
      | inr (site, added, w) ↦
          (deploys env row site ∷ rs, e ∙ rw (added, append_assoc), ask site w s)
    ]

-- The deployments that a tick asks for follow the order of the rows, one for a row at most. A crashed
-- or failed row alone is recovered automatically, and a healthy one that is not deploying alone is
-- redeployed for its heartbeat, by the path that the settings choose; all of it only if automatic
-- recovery is on.
pub tick_rows-Serves :
    (env : Env) (w : TickInputs) (rows : List RailwayVisibilityRow) (s : WatchdogPersistentState)
    → Serves env rows (tick_rows env w rows none s).requests
unfolding tick_rows finish
tick_rows-Serves env w rows s =
    let (rs, e, sv) = visit_all-Serves env w.now w.answers 0 rows (start (note_query w none s)) in
    rw e sv
