-- ===== src/Tick/Scheduled.antt =====
-- railway-watchdog-tick.ts: a redeployment that is scheduled is asked for in the next tick.
use mathlib.Core.List.{append_assoc}
use pe_hackathon.Base.{
  ℕ, ◌+◌, ◌≡◌, sym, subst, ap, ◌∙◌, true, false, none, String, List, [], ◌∷◌, ◌++◌, arith, returned,
  threw, inl, inr,
}
use pe_hackathon.Base.Store.{get, delete, get-put_self, get-delete_self}
use pe_hackathon.Text.{is_empty}
use pe_hackathon.Env.{Env}
use pe_hackathon.Lifecycle.{
  HeartbeatExitLifecycleState, peek_exit_lifecycle_redeem, clear_exit_lifecycle_redeem_flag,
  clear_exit_lifecycle_for_service, requeue_exit_lifecycle_redeem,
  railway_heartbeat_exit_redeploy_enabled,
}
use pe_hackathon.Lifecycle.Streaks.{ServiceView, view}
use pe_hackathon.Visibility.Rows.{RailwayVisibilityRow}
use pe_hackathon.Tick.State.{
  Loop, Answers, exit_redeploy, push_event, log_in, note_activity, push_activity,
  WatchdogPersistentState,
}
use pe_hackathon.Tick.Settings.{railway_heartbeat_enabled, auto_recover}
use pe_hackathon.Tick.Status.{is_healthy, is_deploying, current_status, deployment_id_of}
use pe_hackathon.Tick.Redeem.{redeem, redeem_due, request_deploy, deploy_outcome}
use pe_hackathon.Tick.Probe.{heartbeat_row}
use pe_hackathon.Tick.AutoRecover.{forget_cooldown, auto_recover_row}
use pe_hackathon.Tick.Run.{
  TickInputs, visit, visit_all, remember, tick_rows, note_query, finish, start,
}
use pe_hackathon.Tick.Requests.{
  Request, deploys, visit_all-Serves, heartbeat_row-requests, auto_recover_row-requests,
  forget_cooldown-requests, transitions-requests,
}
use pe_hackathon.Tick.Outsiders.{OtherRows, lifecycle, visit-view_ne}

-- The settings and the row let a scheduled redeployment go ahead.
pub record IsReady (env : Env) (row : RailwayVisibilityRow) : Type 0 where
  pub heartbeats : railway_heartbeat_enabled env ≡ true
  pub redeploys : railway_heartbeat_exit_redeploy_enabled env ≡ true
  pub recovers : auto_recover env ≡ true
  pub healthy : is_healthy (current_status row) ≡ true
  pub steady : is_deploying (current_status row) ≡ false
  pub deployed : is_empty (deployment_id_of row) ≡ false

module _ (env : Env) (now : String) (row : RailwayVisibilityRow) (a : Answers) (l : Loop) where
  abbrev pub lifecycle_after : HeartbeatExitLifecycleState
  lifecycle_after = ((redeem env now row a l).state).heartbeat_exit_lifecycle

  due :
      IsReady env row
      → peek_exit_lifecycle_redeem (l.state).heartbeat_exit_lifecycle row.railway_service_id ≡ true
      → redeem_due env l.state row ≡ true
  unfolding redeem_due auto_recover
  due ready flagged = ground arith

  -- A scheduled redeployment is asked for. If Railway accepts it, the service starts afresh: no failures,
  -- not exited, nothing scheduled. If Railway refuses it, it stays scheduled for the next tick.
  pub redeem_scheduled :
      IsReady env row
      → peek_exit_lifecycle_redeem (l.state).heartbeat_exit_lifecycle row.railway_service_id ≡ true
      → ((redeem env now row a l).requests ≡ l.requests ++ deploys env row exit_redeploy ∷ [])
        × (deploy_outcome env a exit_redeploy ≡ returned tt
            → (get (lifecycle_after).consecutive_fails row.railway_service_id ≡ none)
              × (get (lifecycle_after).lifecycle_exited row.railway_service_id ≡ none)
              × (peek_exit_lifecycle_redeem lifecycle_after row.railway_service_id ≡ false))
        × ((msg : String)
            → deploy_outcome env a exit_redeploy ≡ threw msg
            → peek_exit_lifecycle_redeem lifecycle_after row.railway_service_id ≡ true)
  unfolding redeem request_deploy note_activity push_event log_in peek_exit_lifecycle_redeem
      clear_exit_lifecycle_redeem_flag clear_exit_lifecycle_for_service
      requeue_exit_lifecycle_redeem
  redeem_scheduled ready flagged =
      let sid = row.railway_service_id in
      let s = (l.state).heartbeat_exit_lifecycle in
      (
        ground (arith, due ready flagged),
        (λ sent. ground (
          arith,
          due ready flagged,
          get-delete_self s.consecutive_fails sid,
          get-delete_self s.lifecycle_exited sid,
          get-delete_self (delete s.redeem_on_next_tick sid) sid,
        )),
        (λ msg refused.
            ground
              (arith, due ready flagged, get-put_self (delete s.redeem_on_next_tick sid) sid true)),
      )

module _ (env : Env) (now : String) (row : RailwayVisibilityRow) where
  -- The request for the row is among the requests.
  abbrev pub IsAsked : List Request → Type 0
  IsAsked rs =
      (before : List Request) × (after : List Request) × (rs
        ≡ before ++ deploys env row exit_redeploy ∷ after)

  IsAsked-append : (rs more : List Request) → IsAsked rs → IsAsked (rs ++ more)
  IsAsked-append rs more (before, after, e) = (
    before,
    after ++ more,
    rw e (append_assoc before (deploys env row exit_redeploy ∷ after) more),
  )

  abbrev IsDue : Loop → Type 0
  IsDue l = peek_exit_lifecycle_redeem (lifecycle l) row.railway_service_id ≡ true

  visit-IsAsked :
      (a : Answers) (l : Loop)
      → IsReady env row
      → IsDue l
      → IsAsked (visit env now row a l).requests
  unfolding visit remember
  visit-IsAsked a l ready flagged =
      let l₁ = redeem env now row a l in
      let l₂ = heartbeat_row env now row a l₁ in
      let l₃ = forget_cooldown row l₂ in
      let l₄ = auto_recover_row env now row a l₃ in
      let first : IsAsked l₁.requests =
        (l.requests, [], (redeem_scheduled env now row a l ready flagged).0) in
      let second : IsAsked l₂.requests = elim (heartbeat_row-requests env now row a l₁) [
        | inl same ↦ subst IsAsked (sym same) first
        | inr (more, _) ↦ subst IsAsked (sym more) (IsAsked-append _ _ first)
      ] in
      let third : IsAsked l₃.requests =
        subst IsAsked (sym (forget_cooldown-requests env now row a l₂)) second in
      let fourth : IsAsked l₄.requests = elim (auto_recover_row-requests env now row a l₃) [
        | inl same ↦ subst IsAsked (sym same) third
        | inr (more, _) ↦ subst IsAsked (sym more) (IsAsked-append _ _ third)
      ] in
      subst IsAsked
        (sym (transitions-requests env now row a (get (l.state).prev row.railway_service_id) l₄))
        fourth

  visit_all-IsAsked :
      (answers : ℕ → Answers) (before after : List RailwayVisibilityRow) (i : ℕ) (l : Loop)
      → OtherRows row.railway_service_id before
      → IsReady env row
      → IsDue l
      → IsAsked (visit_all env now answers i (before ++ row ∷ after) l).requests
  unfolding visit_all peek_exit_lifecycle_redeem view
  visit_all-IsAsked answers [] after i l others ready flagged =
      let (rs, e, s) =
        visit_all-Serves env now answers (i + 1) after (visit env now row (answers i) l) in
      subst IsAsked (sym e) (IsAsked-append _ rs (visit-IsAsked (answers i) l ready flagged))
  visit_all-IsAsked answers (other ∷ before) after i l (ne, others) ready flagged =
      visit_all-IsAsked answers before after (i + 1) (visit env now other (answers i) l) others
        ready
        (ap (λ (v : ServiceView). v.redeems)
            (visit-view_ne env now other (answers i) row.railway_service_id ne l)
          ∙ flagged)

  -- A tick asks for the redeployment that is due at its start.
  pub tick_rows-IsAsked :
      (w : TickInputs) (before after : List RailwayVisibilityRow) (state : WatchdogPersistentState)
      → now ≡ w.now
      → OtherRows row.railway_service_id before
      → IsReady env row
      → peek_exit_lifecycle_redeem state.heartbeat_exit_lifecycle row.railway_service_id ≡ true
      → IsAsked (tick_rows env w (before ++ row ∷ after) none state).requests
  unfolding tick_rows finish note_query push_activity
  tick_rows-IsAsked w before after state at others ready flagged =
      subst
        (λ n.
          IsAsked
            (visit_all env n w.answers 0 (before ++ row ∷ after)
              (start (note_query w none state))).requests)
        at
        (visit_all-IsAsked w.answers before after 0 (start (note_query w none state)) others ready
          flagged)
