-- ===== src/Tick/Apart.antt =====
-- railway-watchdog-tick.ts: the heartbeat redeployments of a service do not depend on other services' rows.
use pe_hackathon.Base.{
  ◌+◌, ◌≡◌, refl, ap, ◌∙◌, false, String, ◌==◌, arith, Bool-cases, Option-cases, inl, inr,
}
use pe_hackathon.Base.Store.{Store, get, get-put, get-delete}
use pe_hackathon.Env.{Env}
use pe_hackathon.Heartbeat.{build_heartbeat_probe_url, ping_heartbeat_url}
use pe_hackathon.Visibility.Rows.{RailwayVisibilityRow}
use pe_hackathon.Tick.State.{
  Loop, Answers, DeploySite, exit_redeploy, heartbeat_redeploy, auto_redeploy,
  HeartbeatRecoverState, note_activity,
}
use pe_hackathon.Tick.Settings.{railway_heartbeat_enabled}
use pe_hackathon.Tick.Status.{deployment_id_of, current_status}
use pe_hackathon.Tick.Misses.{touch}
use pe_hackathon.Tick.Probe.{heartbeat_row, probe_row, conclude}
use pe_hackathon.Tick.Run.{visit, remember}
use pe_hackathon.Tick.Requests.{deploys}
use pe_hackathon.Tick.Budget.{
  redeem-beats, beat-beats, auto_recover_row-beats, forget_cooldown-beats, transitions-beats,
}
use pe_hackathon.Tick.Requests.{visit-Asks}
use pe_hackathon.Tick.Budget.{skip_row-beats}
use pe_hackathon.Tick.Balance.{one, redeploys, redeploys-snoc}

abbrev beats : Loop → Store HeartbeatRecoverState
beats l = (l.state).heartbeat_recover_state

-- The round of another service's row changes neither the counter nor the requests for the service.
module _ (env : Env) (now : String) (row : RailwayVisibilityRow) (a : Answers) (sid : String)
    (ne : (row.railway_service_id == sid) ≡ false) where
  touch-get :
      (m : Store HeartbeatRecoverState) (dep cur : String)
      → get (touch m row.railway_service_id dep cur) sid ≡ get m sid
  unfolding touch
  touch-get m dep cur = elim (Option-cases (get m row.railway_service_id)) [
    | inl e ↦ rw (e, touch) refl
    | inr (old, e) ↦ ground (
      arith,
      e,
      ne,
      get-put m row.railway_service_id sid (record old { deployment_status = cur }),
    )
  ]

  probe_row-get :
      (url : String) (st : HeartbeatRecoverState) (l : Loop)
      → get (beats (probe_row env now row a url st l)) sid ≡ get (beats l) sid
  unfolding probe_row conclude note_activity
  probe_row-get url st l =
      get-put _ row.railway_service_id sid _
      ∙ rw ne
          (ap (λ m. get m sid) (beat-beats env now row a (ping_heartbeat_url a.fetched).ok st _))

  heartbeat_row-get :
      (l : Loop) → get (beats (heartbeat_row env now row a l)) sid ≡ get (beats l) sid
  unfolding heartbeat_row
  heartbeat_row-get l =
      let touched = touch-get (beats l) (deployment_id_of row) (current_status row) in
      elim (Bool-cases (railway_heartbeat_enabled env)) [
        | inr off ↦ rw off touched
        | inl on ↦
            rw on
              (elim (Option-cases
                (build_heartbeat_probe_url env row.railway_public_url row.service)) [
                  | inl unprobed ↦
                      rw (unprobed, heartbeat_row)
                        (rw (skip_row-beats env now row a _)
                          (get-delete _ row.railway_service_id sid ∙ rw ne touched))
                  | inr (url, probed) ↦ rw (probed, heartbeat_row) (probe_row-get url _ _ ∙ touched)
                ])
      ]

  pub visit-get : (l : Loop) → get (beats (visit env now row a l)) sid ≡ get (beats l) sid
  unfolding visit remember
  visit-get l =
      rw
        (
          transitions-beats env now row a _ _,
          auto_recover_row-beats env now row a _,
          forget_cooldown-beats env now row a _,
        )
        (heartbeat_row-get _ ∙ ap (λ m. get m sid) (redeem-beats env now row a l))

  pub visit-redeploys :
      (l : Loop) → redeploys sid (visit env now row a l).requests ≡ redeploys sid l.requests
  visit-redeploys l = elim (visit-Asks env now row a l) [
    | inl same ↦ ap (redeploys sid) same
    | inr (site, added, _) ↦
        ap (redeploys sid) added
        ∙ redeploys-snoc sid l.requests (deploys env row site)
        ∙ none_of site
  ]
    where
      none_of :
          (site : DeploySite)
          → redeploys sid l.requests + one sid (deploys env row site) ≡ redeploys sid l.requests
      none_of exit_redeploy = omega arith
      none_of heartbeat_redeploy = rw ne (omega arith)
      none_of auto_redeploy = omega arith
