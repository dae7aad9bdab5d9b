-- ===== src/Tick/ExitRedeploy.antt =====
-- railway-watchdog-tick.ts and heartbeat-lifecycle.ts: an exited service is redeployed by the next tick.
use pe_hackathon.Base.{
  ◌≡◌, ◌≢◌, refl, ap, ◌∙◌, Bool, true, false, Option, none, some, String, List, ◌∷◌, ◌++◌,
}
use pe_hackathon.Base.Store.{get}
use pe_hackathon.Env.{Env}
use pe_hackathon.Visibility.Status.{RailwayOnlineStatus}
use pe_hackathon.Heartbeat.{HeartbeatPingResult}
use pe_hackathon.Lifecycle.{HeartbeatExitLifecycleState, peek_exit_lifecycle_redeem, is_online}
use pe_hackathon.Lifecycle.Streaks.{ServiceView, view, streak, exits}
use pe_hackathon.Lifecycle.History.{
  Change, probed, changed, Probes, Offline, Probes-fresh, forgotten, offline-forgotten,
  Offline-forgotten,
}
use pe_hackathon.Visibility.Rows.{RailwayVisibilityRow}
use pe_hackathon.Tick.State.{WatchdogPersistentState}
use pe_hackathon.Tick.Run.{TickInputs, tick_rows}
use pe_hackathon.Tick.Outsiders.{OtherRows}
use pe_hackathon.Tick.Scheduled.{IsReady, IsAsked, tick_rows-IsAsked}

module _ (env : Env) (w : TickInputs) (dep : String) (before after : List RailwayVisibilityRow)
    (row : RailwayVisibilityRow) (state : WatchdogPersistentState)
    (s : HeartbeatExitLifecycleState) where
  -- The service's deployment was not seen before. Since then the watchdog has probed it while Railway
  -- reported it as online, and the failures in a row at the end have reached the threshold; services
  -- other than this one were probed and redeployed in between. Then the next tick, whatever other rows
  -- come before and after the row of the service, asks Railway to redeploy it, if heartbeats, exit
  -- redeployments and automatic recovery are on and the row shows a deployment that is healthy.
  pub exited_is_redeployed :
      (first : HeartbeatPingResult) (hbs : List HeartbeatPingResult) (cs : List Change)
      → get s.last_deployment_id row.railway_service_id ≢ some dep
      → Probes row.railway_service_id dep (first ∷ hbs) cs
      → exits env true row.railway_service_id dep (streak 0 (first ∷ hbs)) ≡ true
      → state.heartbeat_exit_lifecycle ≡ changed env s cs
      → OtherRows row.railway_service_id before
      → IsReady env row
      → IsAsked env w.now row (tick_rows env w (before ++ row ∷ after) none state).requests
  unfolding view peek_exit_lifecycle_redeem
  exited_is_redeployed first hbs cs fresh probes reached same others ready =
      tick_rows-IsAsked env w.now row w before after state refl others ready (
        ap (λ m. (view m row.railway_service_id).redeems) same
        ∙ ap (λ (v : ServiceView). v.redeems)
            (Probes-fresh row.railway_service_id dep env probes s fresh)
        ∙ rw (ready.redeploys, reached) refl)

  -- The failures in a row of a deployment that was not seen before have reached the threshold. Then
  -- Railway no longer reports it as online, and it is probed in this state at least once; services
  -- other than this one were probed and redeployed in between. This forgets the failures and the exit,
  -- but not the redeployment: the next tick with a row of the service that shows a healthy deployment
  -- asks Railway to redeploy it, if heartbeats, exit redeployments and automatic recovery are on.
  pub redeem_outlives_exit :
      (first : HeartbeatPingResult) (hbs : List HeartbeatPingResult) (cs later : List Change)
      (base : RailwayOnlineStatus) (hb : Option HeartbeatPingResult) (schedule : Bool)
      → get s.last_deployment_id row.railway_service_id ≢ some dep
      → Probes row.railway_service_id dep (first ∷ hbs) cs
      → exits env true row.railway_service_id dep (streak 0 (first ∷ hbs)) ≡ true
      → is_online base ≡ false
      → Offline row.railway_service_id dep later
      → state.heartbeat_exit_lifecycle
        ≡ changed env
            (changed env s cs)
            (probed row.railway_service_id dep base hb schedule ∷ later)
      → OtherRows row.railway_service_id before
      → IsReady env row
      → ((view state.heartbeat_exit_lifecycle row.railway_service_id).fails ≡ 0)
        × ((view state.heartbeat_exit_lifecycle row.railway_service_id).is_exited ≡ false)
        × IsAsked env w.now row (tick_rows env w (before ++ row ∷ after) none state).requests
  unfolding changed view peek_exit_lifecycle_redeem
  redeem_outlives_exit first hbs cs later base hb schedule fresh probes reached off offline same
        others ready =
      let sid = row.railway_service_id in
      let failed = Probes-fresh sid dep env probes s fresh in
      let once =
        offline-forgotten sid dep env (changed env s cs) base hb schedule off
          (ap (λ (v : ServiceView). v.deployment) failed) in
      let due =
        ap (λ (v : ServiceView). forgotten sid dep env v.redeems) failed
        ∙ rw (ready.redeploys, reached) refl in
      let now_view : view state.heartbeat_exit_lifecycle sid ≡ forgotten sid dep env true =
        ap (λ m. view m sid) same ∙ Offline-forgotten sid dep env offline _ true (once ∙ due) in
      (
        ap (λ (v : ServiceView). v.fails) now_view,
        ap (λ (v : ServiceView). v.is_exited) now_view,
        tick_rows-IsAsked env w.now row w before after state refl others ready
            (ap (λ (v : ServiceView). v.redeems) now_view),
      )
