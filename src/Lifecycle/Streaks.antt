-- ===== src/Lifecycle/Streaks.antt =====
-- heartbeat-lifecycle.ts: a run of probes of one deployment, and the streak of failures at its end.
use pe_hackathon.Base.{
  ℕ, ◌+◌, ◌≤◌, ◌≡◌, ◌≢◌, refl, ap, ◌∙◌, Bool, true, false, ◌&&◌, Option, none, some, String, List,
  [], ◌∷◌, ◌==◌, arith, leb, eq_refl, eq_iff, if◌then◌else◌, or_else, Bool-cases, Option-cases, inl,
  inr,
}
use pe_hackathon.Base.Store.{get, get-put, get-delete, get-put_self, get-delete_self}
use pe_hackathon.Env.{Env}
use pe_hackathon.Visibility.Status.{RailwayOnlineStatus, online, exited}
use pe_hackathon.Heartbeat.{HeartbeatPingResult}
use pe_hackathon.Lifecycle.{
  HeartbeatExitLifecycleState, heartbeat_exit_failure_threshold,
  railway_heartbeat_exit_redeploy_enabled, sync_heartbeat_exit_deployment_id, probe_ok,
  probe_failed, probe_not_online, probe_online, verdict, is_true,
  effective_railway_online_status_after_probe,
}

-- What the four maps hold for one service.
pub record ServiceView : Type 0 where
  pub fails : ℕ
  pub deployment : Option String
  pub is_exited : Bool
  pub redeems : Bool

unfoldable pub view : HeartbeatExitLifecycleState → String → ServiceView
view s sid = record {
  fails = or_else (get s.consecutive_fails sid) 0;
  deployment = get s.last_deployment_id sid;
  is_exited = is_true (get s.lifecycle_exited sid);
  redeems = is_true (get s.redeem_on_next_tick sid);
}

-- The failures in a row after one more verdict; a probe that was skipped does not count.
abbrev pub count_verdict : ℕ → Option Bool → ℕ
count_verdict n none = n
count_verdict n (some true) = 0
count_verdict n (some false) = n + 1

-- The failures in a row at the end of a run of probes.
unfoldable pub streak : ℕ → List HeartbeatPingResult → ℕ
streak n [] = n
streak n (hb ∷ hbs) = streak (count_verdict n (verdict (some hb))) hbs

pub threshold_positive : (env : Env) → 1 ≤ heartbeat_exit_failure_threshold env
unfolding heartbeat_exit_failure_threshold
threshold_positive env = ground arith

module _ (env : Env) (schedule : Bool) (sid dep : String) where
  -- A failing probe after `n` failures in a row is counted as one that exits the service.
  abbrev pub exits : ℕ → Bool
  exits n = leb (heartbeat_exit_failure_threshold env) n

  abbrev pub may_redeem : Bool
  may_redeem = railway_heartbeat_exit_redeploy_enabled env && schedule

  -- What is known of the service after `n` failures in a row of the deployment.
  abbrev pub settled : ℕ → ServiceView
  settled n = record {
    fails = n;
    deployment = some dep;
    is_exited = exits n;
    redeems = may_redeem && exits n;
  }

  abbrev pub status_after : ℕ → Option Bool → RailwayOnlineStatus
  status_after n (some false) = if exits (n + 1) then exited else online
  status_after n _ = online

  -- The state and the status after one probe of the deployment, which Railway reports as online.
  abbrev pub probe :
      HeartbeatExitLifecycleState
      → HeartbeatPingResult
      → HeartbeatExitLifecycleState × RailwayOnlineStatus
  probe s hb = effective_railway_online_status_after_probe env s sid dep online (some hb) schedule

  unfoldable pub run :
      HeartbeatExitLifecycleState → List HeartbeatPingResult → HeartbeatExitLifecycleState
  run s [] = s
  run s (hb ∷ hbs) = run (probe s hb).0 hbs

  sync_known :
      (s : HeartbeatExitLifecycleState)
      → get s.last_deployment_id sid ≡ some dep
      → sync_heartbeat_exit_deployment_id s sid dep ≡ s
  unfolding sync_heartbeat_exit_deployment_id
  sync_known s e = ground (arith, eq_refl dep)

  probe_ok-view :
      (s : HeartbeatExitLifecycleState) (n : ℕ)
      → view s sid ≡ settled n
      → view (probe_ok s sid) sid ≡ settled 0
  unfolding probe_ok view
  probe_ok-view s n e = ground (
    arith,
    get-put_self s.consecutive_fails sid 0,
    get-delete_self s.lifecycle_exited sid,
    get-delete_self s.redeem_on_next_tick sid,
    threshold_positive env,
  )

  probe_failed-view :
      (s : HeartbeatExitLifecycleState) (n : ℕ)
      → view s sid ≡ settled n
      → (view (probe_failed env schedule s sid).0 sid ≡ settled (n + 1))
        × ((probe_failed env schedule s sid).1 ≡ status_after n (some false))
  unfolding probe_failed view
  probe_failed-view s n e = ground (
    arith,
    get-put_self s.consecutive_fails sid (or_else (get s.consecutive_fails sid) 0 + 1),
    get-put_self s.lifecycle_exited sid true,
    get-put_self s.redeem_on_next_tick sid true,
  )

  pub probe-settled :
      (s : HeartbeatExitLifecycleState) (n : ℕ) (hb : HeartbeatPingResult)
      → view s sid ≡ settled n
      → (view (probe s hb).0 sid ≡ settled (count_verdict n (verdict (some hb))))
        × ((probe s hb).1 ≡ status_after n (verdict (some hb)))
  unfolding effective_railway_online_status_after_probe view
  probe-settled s n hb e =
      rw (sync_known s (ap (λ (v : ServiceView). v.deployment) e)) (go (verdict (some hb)))
    where
      go :
          (v : Option Bool)
          → (view (probe_online env schedule s sid v).0 sid ≡ settled (count_verdict n v))
            × ((probe_online env schedule s sid v).1 ≡ status_after n v)
      go none = (e, refl)
      go (some true) = (probe_ok-view s n e, refl)
      go (some false) = probe_failed-view s n e

  run-settled :
      (hbs : List HeartbeatPingResult) (s : HeartbeatExitLifecycleState) (n : ℕ)
      → view s sid ≡ settled n
      → view (run s hbs) sid ≡ settled (streak n hbs)
  unfolding run streak
  run-settled [] s n e = e
  run-settled (hb ∷ hbs) s n e =
      run-settled hbs (probe s hb).0 (count_verdict n (verdict (some hb)))
        (probe-settled s n hb e).0

  -- A deployment that is not the recorded one starts from no failures.
  sync-settled :
      (s : HeartbeatExitLifecycleState)
      → get s.last_deployment_id sid ≢ some dep
      → view (sync_heartbeat_exit_deployment_id s sid dep) sid ≡ settled 0
  unfolding sync_heartbeat_exit_deployment_id view
  sync-settled s ne = elim (Option-cases (get s.last_deployment_id sid)) [
    | inl unseen ↦ ground (
      arith,
      get-put_self s.last_deployment_id sid dep,
      get-delete_self s.consecutive_fails sid,
      get-delete_self s.lifecycle_exited sid,
      get-delete_self s.redeem_on_next_tick sid,
      threshold_positive env,
    )
    | inr (prev, seen) ↦ elim (Bool-cases (prev == dep)) [
      | inl same ↦ absurd (ne (seen ∙ ap some ((eq_iff prev dep).0 same)))
      | inr other ↦ ground (
        arith,
        get-put_self s.last_deployment_id sid dep,
        get-delete_self s.consecutive_fails sid,
        get-delete_self s.lifecycle_exited sid,
        get-delete_self s.redeem_on_next_tick sid,
        threshold_positive env,
      )
    ]
  ]

  probe_synced :
      (s : HeartbeatExitLifecycleState) (hb : HeartbeatPingResult)
      → get s.last_deployment_id sid ≢ some dep
      → probe s hb ≡ probe (sync_heartbeat_exit_deployment_id s sid dep) hb
  unfolding effective_railway_online_status_after_probe view
  probe_synced s hb ne = rw (
      sync_known (sync_heartbeat_exit_deployment_id s sid dep)
        (ap (λ (v : ServiceView). v.deployment) (sync-settled s ne)))

  pub run-fresh :
      (hbs : List HeartbeatPingResult) (hb : HeartbeatPingResult) (s : HeartbeatExitLifecycleState)
      → get s.last_deployment_id sid ≢ some dep
      → view (run s (hb ∷ hbs)) sid ≡ settled (streak 0 (hb ∷ hbs))
  unfolding run streak
  run-fresh hbs hb s ne = rw (probe_synced s hb ne) (
      run-settled hbs _ _
        (probe-settled (sync_heartbeat_exit_deployment_id s sid dep) 0 hb (sync-settled s ne)).0)

  -- Probes of a deployment that was not seen before, which Railway reports as online all along, leave
  -- exactly this of the service: the failures in a row at the end, the deployment, whether the failures
  -- reach the threshold, and whether a redeployment is due, which is so just when they do, the setting
  -- is on and the caller schedules. One more probe answers `exited` just when it fails and reaches
  -- the threshold, and `online` otherwise.
  pub run_of_deployment :
      (s : HeartbeatExitLifecycleState) (first next : HeartbeatPingResult)
      (hbs : List HeartbeatPingResult)
      → get s.last_deployment_id sid ≢ some dep
      → (view (run s (first ∷ hbs)) sid ≡ settled (streak 0 (first ∷ hbs)))
        × ((probe (run s (first ∷ hbs)) next).1
            ≡ status_after (streak 0 (first ∷ hbs)) (verdict (some next)))
  run_of_deployment s first next hbs ne =
      let e = run-fresh hbs first s ne in
      (e, (probe-settled (run s (first ∷ hbs)) (streak 0 (first ∷ hbs)) next e).1)

-- Nothing that a probe of one service does is seen from another.
pub probe-view_ne :
    (env : Env) (schedule : Bool) (s : HeartbeatExitLifecycleState) (sid dep j : String)
    (base : RailwayOnlineStatus) (hb : Option HeartbeatPingResult)
    → (sid == j) ≡ false
    → view (effective_railway_online_status_after_probe env s sid dep base hb schedule).0 j
      ≡ view s j
unfolding effective_railway_online_status_after_probe probe_not_online probe_failed probe_ok
    sync_heartbeat_exit_deployment_id view
probe-view_ne env schedule s sid dep j base hb ne = grind (arith, get-put, get-delete)
