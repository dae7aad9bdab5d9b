-- ===== src/Tick/Cooldown.antt =====
-- railway-watchdog-tick.ts: the pause between two automatic redeployments of a service.
use pe_hackathon.Base.{
  ℕ, ◌+◌, ◌<◌, ◌≡◌, refl, ◌∙◌, Bool, true, false, Option, none, some, String, [], ◌∷◌, ◌++◌, arith,
  returned, eq_refl,
}
use pe_hackathon.Base.Store.{get, get-put}
use pe_hackathon.Env.{Env}
use pe_hackathon.Visibility.Rows.{RailwayVisibilityRow}
use pe_hackathon.Tick.State.{
  Loop, Answers, WatchdogPrevEntry, HeartbeatRecoverState, auto_redeploy, auto_check, auto_set,
  recover_cooldown_ms, push_event, log_in, note_activity,
}
use pe_hackathon.Tick.Status.{is_healthy, current_status}
use pe_hackathon.Tick.Redeem.{redeem, request_deploy, deploy_outcome}
use pe_hackathon.Tick.Misses.{consider_recover}
use pe_hackathon.Tick.Probe.{heartbeat_row, probe_row, skip_row, conclude, beat, missed}
use pe_hackathon.Tick.AutoRecover.{
  forget_cooldown, auto_recover_row, auto_recover_triggered, cooling_down,
}
use pe_hackathon.Tick.Transitions.{transitions, report_stopped}
use pe_hackathon.Tick.Run.{visit, remember}
use pe_hackathon.Tick.Requests.{
  deploys, redeem-requests, heartbeat_row-requests, transitions-requests, healthy_untriggered,
}

module _ (env : Env) (now : String) (row : RailwayVisibilityRow) (a : Answers) where
  redeem-cooldown :
      (l : Loop) → ((redeem env now row a l).state).recover_cooldown ≡ (l.state).recover_cooldown
  unfolding redeem request_deploy note_activity push_event log_in
  redeem-cooldown l = ground arith

  consider_recover-cooldown :
      (st : HeartbeatRecoverState) (l : Loop)
      → (((consider_recover env now row a st l).1).state).recover_cooldown
        ≡ (l.state).recover_cooldown
  unfolding consider_recover request_deploy note_activity push_event log_in
  consider_recover-cooldown st l = ground arith

  beat-cooldown :
      (ok : Bool) (st : HeartbeatRecoverState) (l : Loop)
      → (((beat env now row a ok st l).1).state).recover_cooldown ≡ (l.state).recover_cooldown
  unfolding beat missed
  beat-cooldown true st l = refl
  beat-cooldown false st l = grind (arith, consider_recover-cooldown)

  probe_row-cooldown :
      (url : String) (st : HeartbeatRecoverState) (l : Loop)
      → ((probe_row env now row a url st l).state).recover_cooldown ≡ (l.state).recover_cooldown
  unfolding probe_row conclude note_activity
  probe_row-cooldown url st l = beat-cooldown _ st _

  heartbeat_row-cooldown :
      (l : Loop)
      → ((heartbeat_row env now row a l).state).recover_cooldown ≡ (l.state).recover_cooldown
  unfolding heartbeat_row skip_row note_activity
  heartbeat_row-cooldown l = grind (arith, probe_row-cooldown)

  transitions-cooldown :
      (before : Option WatchdogPrevEntry) (l : Loop)
      → ((transitions now row a before l).state).recover_cooldown ≡ (l.state).recover_cooldown
  unfolding transitions report_stopped push_event log_in
  transitions-cooldown none l = refl
  transitions-cooldown (some before) l = ground arith

  -- The cooldown of the row is as the parts before left it, if the row is not healthy.
  visit-cooldown :
      (l : Loop)
      → is_healthy (current_status row) ≡ false
      → (m : Loop) × ((m.state).recover_cooldown ≡ (l.state).recover_cooldown)
        × (m.requests ≡ l.requests)
        × ((visit env now row a l).requests ≡ (auto_recover_row env now row a m).requests)
        × (((visit env now row a l).state).recover_cooldown
            ≡ ((auto_recover_row env now row a m).state).recover_cooldown)
  unfolding visit remember forget_cooldown
  visit-cooldown l ill =
      let m = heartbeat_row env now row a (redeem env now row a l) in
      (
        m,
        heartbeat_row-cooldown _ ∙ redeem-cooldown l,
        ground (
          arith,
          redeem-requests env now row a l,
          heartbeat_row-requests env now row a (redeem env now row a l),
        ),
        rw (transitions-requests env now row a _ _) (rw ill),
        rw (transitions-cooldown _ _) (rw ill),
      )

-- An automatic redeployment that went through sets the time of the row's cooldown.
auto_recover_row-cooldown :
    (env : Env) (now : String) (row : RailwayVisibilityRow) (a : Answers) (l : Loop)
    → auto_recover_triggered env row ≡ true
    → cooling_down (get (l.state).recover_cooldown row.railway_service_id) (a.clock auto_check)
      ≡ false
    → deploy_outcome env a auto_redeploy ≡ returned tt
    → (get ((auto_recover_row env now row a l).state).recover_cooldown row.railway_service_id
        ≡ some (a.clock auto_set))
      × ((auto_recover_row env now row a l).requests
          ≡ l.requests ++ deploys env row auto_redeploy ∷ [])
unfolding auto_recover_row request_deploy note_activity push_event log_in
auto_recover_row-cooldown env now row a l triggered warm sent =
    rw (triggered, warm, sent, auto_recover_row)
      (get-put _ _ _ _ ∙ rw (eq_refl row.railway_service_id), refl)

auto_recover_row_cooling :
    (env : Env) (now : String) (row : RailwayVisibilityRow) (a : Answers) (l : Loop) (last : ℕ)
    → get (l.state).recover_cooldown row.railway_service_id ≡ some last
    → a.clock auto_check < last + recover_cooldown_ms
    → (auto_recover_row env now row a l).requests ≡ l.requests
unfolding auto_recover_row cooling_down
auto_recover_row_cooling env now row a l last e h = ground arith

triggered_ill :
    (env : Env) (row : RailwayVisibilityRow)
    → auto_recover_triggered env row ≡ true
    → is_healthy (current_status row) ≡ false
unfolding auto_recover_triggered
triggered_ill env row h = ground (arith, healthy_untriggered (current_status row))

-- With automatic recovery on, a crashed or failed row whose cooldown is over is redeployed once, and if
-- Railway accepts that, then a later round over the same service, not healthy and checked less than 50 seconds after, asks for
-- nothing, whatever happened to the rest of the state in between.
pub auto_redeploy_pause :
    (env : Env) (now now' : String) (row row' : RailwayVisibilityRow) (a a' : Answers) (l l' : Loop)
    → auto_recover_triggered env row ≡ true
    → cooling_down (get (l.state).recover_cooldown row.railway_service_id) (a.clock auto_check)
      ≡ false
    → deploy_outcome env a auto_redeploy ≡ returned tt
    → row'.railway_service_id ≡ row.railway_service_id
    → get (l'.state).recover_cooldown row.railway_service_id
      ≡ get ((visit env now row a l).state).recover_cooldown row.railway_service_id
    → is_healthy (current_status row') ≡ false
    → a'.clock auto_check < a.clock auto_set + recover_cooldown_ms
    → ((visit env now row a l).requests ≡ l.requests ++ deploys env row auto_redeploy ∷ [])
      × ((visit env now' row' a' l').requests ≡ l'.requests)
auto_redeploy_pause env now now' row row' a a' l l' triggered warm sent same kept ill early =
    let (m, cool, asked, reqs, left) =
      visit-cooldown env now row a l (triggered_ill env row triggered) in
    let (m', cool', asked', reqs', left') = visit-cooldown env now' row' a' l' ill in
    let (set, made) = auto_recover_row-cooldown env now row a m triggered (rw cool warm) sent in
    let known : get (m'.state).recover_cooldown row'.railway_service_id ≡ some (a.clock auto_set) =
      rw (same, cool') (kept ∙ rw left set) in
    (
      reqs ∙ made ∙ rw asked,
      reqs' ∙ auto_recover_row_cooling env now' row' a' m' (a.clock auto_set) known early ∙ asked',
    )
