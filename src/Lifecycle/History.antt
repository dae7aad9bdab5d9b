-- ===== src/Lifecycle/History.antt =====
-- heartbeat-lifecycle.ts: the changes of the shared maps by the probes and the redeployments of many
-- services, and what they leave of one of them.
use pe_hackathon.Base.{
  ◌≡◌, ◌≢◌, sym, ap, ◌∙◌, Bool, true, false, Option, some, String, List, [], ◌∷◌, ◌==◌, arith, ℕ,
  eq_refl,
}
use pe_hackathon.Base.Store.{get, get-put, get-delete, get-delete_self}
use pe_hackathon.Env.{Env}
use pe_hackathon.Visibility.Status.{RailwayOnlineStatus, online}
use pe_hackathon.Heartbeat.{HeartbeatPingResult}
use pe_hackathon.Lifecycle.{
  HeartbeatExitLifecycleState, effective_railway_online_status_after_probe, is_online,
  sync_heartbeat_exit_deployment_id, probe_not_online, clear_exit_lifecycle_redeem_flag,
  clear_exit_lifecycle_for_service, requeue_exit_lifecycle_redeem,
}
use pe_hackathon.Lifecycle.Streaks.{
  ServiceView, view, streak, settled, run, probe-settled, run-fresh, probe-view_ne,
}

-- One change of the maps; each names the service that it is about.
pub data Change : Type 0 where
  probed :
      (service deployment : String)
      → (base : RailwayOnlineStatus) → (result : Option HeartbeatPingResult) → (schedule : Bool)
      → Change
  unflagged : (service : String) → Change
  cleared : (service : String) → Change
  requeued : (service : String) → Change

abbrev pub service_of : Change → String
service_of (probed service _ _ _ _) = service
service_of (unflagged service) = service
service_of (cleared service) = service
service_of (requeued service) = service

module _ (env : Env) where
  abbrev pub change : HeartbeatExitLifecycleState → Change → HeartbeatExitLifecycleState
  change s (probed service deployment base result schedule) =
      (effective_railway_online_status_after_probe env s service deployment base result schedule).0
  change s (unflagged service) = clear_exit_lifecycle_redeem_flag s service
  change s (cleared service) = clear_exit_lifecycle_for_service s service
  change s (requeued service) = requeue_exit_lifecycle_redeem s service

  unfoldable pub changed : HeartbeatExitLifecycleState → List Change → HeartbeatExitLifecycleState
  changed s [] = s
  changed s (c ∷ cs) = changed (change s c) cs

  -- A change of another service is not seen.
  pub change-view_ne :
      (s : HeartbeatExitLifecycleState) (c : Change) (sid : String)
      → (service_of c == sid) ≡ false
      → view (change s c) sid ≡ view s sid
  unfolding clear_exit_lifecycle_redeem_flag clear_exit_lifecycle_for_service
      requeue_exit_lifecycle_redeem view
  change-view_ne s (probed service dep base hb schedule) sid ne =
      probe-view_ne env schedule s service dep sid base hb ne
  change-view_ne s (unflagged service) sid ne = grind (arith, get-put, get-delete)
  change-view_ne s (cleared service) sid ne = grind (arith, get-put, get-delete)
  change-view_ne s (requeued service) sid ne = grind (arith, get-put, get-delete)

module _ (sid dep : String) where
  -- Of the changes, those of the service are the watchdog's probes of the deployment while Railway
  -- reports it as online, with these results; all others are of other services.
  pub data Probes : List HeartbeatPingResult → List Change → Type 0 where
    finished : Probes [] []
    own :
        {hb : HeartbeatPingResult} {hbs : List HeartbeatPingResult} {cs : List Change}
        → Probes hbs cs
        → Probes (hb ∷ hbs) (probed sid dep online (some hb) true ∷ cs)
    other :
        {c : Change} {hbs : List HeartbeatPingResult} {cs : List Change}
        → (service_of c == sid) ≡ false
        → Probes hbs cs
        → Probes hbs (c ∷ cs)

  -- Those of the service are probes of the deployment while Railway does not report it as online.
  pub data Offline : List Change → Type 0 where
    finished : Offline []
    own :
        {base : RailwayOnlineStatus} {hb : Option HeartbeatPingResult} {schedule : Bool}
        {cs : List Change}
        → is_online base ≡ false
        → Offline cs
        → Offline (probed sid dep base hb schedule ∷ cs)
    other :
        {c : Change} {cs : List Change}
        → (service_of c == sid) ≡ false
        → Offline cs
        → Offline (c ∷ cs)

  module _ (env : Env) where
    Probes-settled :
        {hbs : List HeartbeatPingResult} {cs : List Change}
        → Probes hbs cs
        → (s : HeartbeatExitLifecycleState) (n : ℕ) → view s sid ≡ settled env true sid dep n
        → view (changed env s cs) sid ≡ settled env true sid dep (streak n hbs)
    unfolding changed streak
    Probes-settled finished s n e = e
    Probes-settled (own p) s n e = Probes-settled p _ _ (probe-settled env true sid dep s n _ e).0
    Probes-settled (other ne p) s n e = Probes-settled p _ n (change-view_ne env s _ sid ne ∙ e)

    -- A deployment that was not seen before starts from no failures, whatever is done to other services.
    pub Probes-fresh :
        {first : HeartbeatPingResult} {hbs : List HeartbeatPingResult} {cs : List Change}
        → Probes (first ∷ hbs) cs
        → (s : HeartbeatExitLifecycleState) → get s.last_deployment_id sid ≢ some dep
        → view (changed env s cs) sid ≡ settled env true sid dep (streak 0 (first ∷ hbs))
    unfolding changed streak run view
    Probes-fresh (own {hb = hb} p) s ne =
        Probes-settled p _ _ (run-fresh env true sid dep [] hb s ne)
    Probes-fresh (other ne' p) s ne = Probes-fresh p _ (λ e.
        ne (sym (ap (λ (v : ServiceView). v.deployment) (change-view_ne env s _ sid ne')) ∙ e))

    -- The failures and the exit are forgotten, and the redeployment is due or not as it was.
    abbrev pub forgotten : Bool → ServiceView
    forgotten due = record { fails = 0; deployment = some dep; is_exited = false; redeems = due }

    pub offline-forgotten :
        (s : HeartbeatExitLifecycleState) (base : RailwayOnlineStatus)
        (hb : Option HeartbeatPingResult) (schedule : Bool)
        → is_online base ≡ false
        → (view s sid).deployment ≡ some dep
        → view (change env s (probed sid dep base hb schedule)) sid ≡ forgotten (view s sid).redeems
    unfolding effective_railway_online_status_after_probe sync_heartbeat_exit_deployment_id
        probe_not_online view
    offline-forgotten s base hb schedule off known = ground (
      arith,
      get-delete_self s.consecutive_fails sid,
      get-delete_self s.lifecycle_exited sid,
      eq_refl dep,
    )

    pub Offline-forgotten :
        {cs : List Change}
        → Offline cs
        → (s : HeartbeatExitLifecycleState) (due : Bool) → view s sid ≡ forgotten due
        → view (changed env s cs) sid ≡ forgotten due
    unfolding changed
    Offline-forgotten finished s due e = e
    Offline-forgotten (own {base = base} {hb = hb} {schedule = schedule} off p) s due e =
        Offline-forgotten p _ due (
          offline-forgotten s base hb schedule off (ap (λ (v : ServiceView). v.deployment) e)
          ∙ ap (λ (v : ServiceView). forgotten v.redeems) e)
    Offline-forgotten (other ne p) s due e =
        Offline-forgotten p _ due (change-view_ne env s _ sid ne ∙ e)
