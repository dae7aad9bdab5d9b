-- ===== src/Tick/Balance.antt =====
-- railway-watchdog-tick.ts: the counter of heartbeat redeployments moves with the requests for them.
use pe_hackathon.Base.{
  ℕ, ◌+◌, ◌≡◌, refl, sym, subst, ap, ◌∙◌, Bool, true, false, Option, none, some, String, List, [],
  ◌∷◌, ◌++◌, ◌==◌, arith, Bool-cases, Option-cases, inl, inr, returned, eq_refl, eq_iff,
  if◌then◌else◌,
}
use pe_hackathon.Base.Store.{Store, get, put, get-put, get-put_self}
use pe_hackathon.Env.{Env}
use pe_hackathon.Heartbeat.{build_heartbeat_probe_url, Ping, ping_heartbeat_url}
use pe_hackathon.Visibility.Halt.{service_instance_deploy}
use pe_hackathon.Visibility.Rows.{RailwayVisibilityRow}
use pe_hackathon.Tick.State.{
  Loop, Answers, heartbeat_redeploy, HeartbeatRecoverState, push_event, log_in, note_activity,
}
use pe_hackathon.Tick.Settings.{railway_heartbeat_enabled}
use pe_hackathon.Tick.Status.{deployment_id_of, current_status}
use pe_hackathon.Tick.Redeem.{redeem, request_deploy, deploy_outcome}
use pe_hackathon.Tick.Misses.{consider_recover, current_state, touch}
use pe_hackathon.Tick.Probe.{heartbeat_row, probe_row, conclude, beat, missed}
use pe_hackathon.Tick.AutoRecover.{forget_cooldown, auto_recover_row}
use pe_hackathon.Tick.Run.{visit, remember}
use pe_hackathon.Tick.Requests.{
  Request, deploys, redeem-requests, auto_recover_row-requests, forget_cooldown-requests,
  transitions-requests,
}
use pe_hackathon.Tick.Budget.{
  redeem-beats, auto_recover_row-beats, forget_cooldown-beats, transitions-beats,
}

module _ (sid : String) where
  -- The heartbeat redeployments of the service among the requests.
  abbrev pub one : Request → ℕ
  one (heartbeat_redeploy, service_instance_deploy _ service) = if service == sid then 1 else 0
  one _ = 0

  unfoldable pub redeploys : List Request → ℕ
  redeploys [] = 0
  redeploys (r ∷ rs) = one r + redeploys rs

  pub redeploys-snoc :
      (rs : List Request) (r : Request) → redeploys (rs ++ r ∷ []) ≡ redeploys rs + one r
  unfolding redeploys
  redeploys-snoc [] r = omega arith
  redeploys-snoc (q ∷ rs) r = omega (arith, redeploys-snoc rs r)

  -- The redeployments that are counted for the deployment; another deployment starts from 0.
  unfoldable pub used : String → Store HeartbeatRecoverState → ℕ
  used dep m = (current_state (get m sid) dep "").recoveries_used

  pub used-ap :
      (dep : String) (m m' : Store HeartbeatRecoverState)
      → get m sid ≡ get m' sid
      → used dep m ≡ used dep m'
  unfolding used
  used-ap dep m m' e =
      ap (λ (o : Option HeartbeatRecoverState). (current_state o dep "").recoveries_used) e

  used-put :
      (dep : String) (m : Store HeartbeatRecoverState) (st : HeartbeatRecoverState)
      → st.deployment_id ≡ dep
      → used dep (put m sid st) ≡ st.recoveries_used
  unfolding used current_state
  used-put dep m st e = ground (arith, get-put_self m sid st, eq_refl dep)

  used-current_state :
      (dep cur : String) (m : Store HeartbeatRecoverState)
      → ((current_state (get m sid) dep cur).recoveries_used ≡ used dep m)
        × ((current_state (get m sid) dep cur).deployment_id ≡ dep)
  unfolding used current_state
  used-current_state dep cur m = go (get m sid)
    where
      go :
          (o : Option HeartbeatRecoverState)
          → ((current_state o dep cur).recoveries_used ≡ (current_state o dep "").recoveries_used)
            × ((current_state o dep cur).deployment_id ≡ dep)
      go none = (refl, refl)
      go (some old) = ground (arith, eq_iff old.deployment_id dep)

  used-touch :
      (dep cur : String) (m : Store HeartbeatRecoverState)
      → used dep (touch m sid dep cur) ≡ used dep m
  unfolding used current_state touch
  used-touch dep cur m = elim (Option-cases (get m sid)) [
    | inl e ↦ rw (e, touch) refl
    | inr (old, e) ↦
        ground (arith, get-put m sid sid (record old { deployment_status = cur }), eq_refl sid)
  ]

-- The round of the service's row counts what it asks for.
module _ (env : Env) (now : String) (row : RailwayVisibilityRow) (a : Answers)
    (accepted : deploy_outcome env a heartbeat_redeploy ≡ returned tt) where
  abbrev pub mine : List Request → ℕ
  mine = redeploys row.railway_service_id

  consider_recover-balance :
      (st : HeartbeatRecoverState) (l : Loop)
      → (((consider_recover env now row a st l).0.recoveries_used + mine l.requests)
          ≡ st.recoveries_used + mine (consider_recover env now row a st l).1.requests)
        × ((consider_recover env now row a st l).0.deployment_id ≡ st.deployment_id)
  unfolding consider_recover request_deploy note_activity push_event log_in
  consider_recover-balance st l = ground (
    arith,
    accepted,
    redeploys-snoc row.railway_service_id l.requests (deploys env row heartbeat_redeploy),
    eq_refl row.railway_service_id,
  )

  beat-balance :
      (ok : Bool) (st : HeartbeatRecoverState) (l : Loop)
      → (((beat env now row a ok st l).0.recoveries_used + mine l.requests)
          ≡ st.recoveries_used + mine (beat env now row a ok st l).1.requests)
        × ((beat env now row a ok st l).0.deployment_id ≡ st.deployment_id)
  unfolding beat missed
  beat-balance true st l = (refl, refl)
  beat-balance false st l = ground (
    arith,
    consider_recover-balance (record st { consecutive_misses = st.consecutive_misses + 1 })
        (record l { hb_fail = l.hb_fail + 1 }),
  )

  abbrev pub beats : Loop → Store HeartbeatRecoverState
  beats l = (l.state).heartbeat_recover_state

  -- What the step adds to the counter of the deployment, it adds to the requests.
  abbrev pub IsBalanced : String → Loop → Loop → Type 0
  IsBalanced dep l l' =
      used row.railway_service_id dep (beats l') + mine l.requests
      ≡ used row.railway_service_id dep (beats l) + mine l'.requests

  conclude-balance :
      (url : String) (pr : Ping) (ok : Bool) (st : HeartbeatRecoverState) (l : Loop)
      → used row.railway_service_id st.deployment_id
            (beats (conclude env row url pr (beat env now row a ok st l)))
          + mine l.requests
        ≡ st.recoveries_used + mine (conclude env row url pr (beat env now row a ok st l)).requests
  unfolding conclude
  conclude-balance url pr ok st l =
      let (balance, same) = beat-balance ok st l in
      ap (λ n. n + mine l.requests)
        (used-put row.railway_service_id st.deployment_id (beats (beat env now row a ok st l).1)
          (beat env now row a ok st l).0 same)
      ∙ balance

  probe_row-IsBalanced :
      (url dep : String) (st : HeartbeatRecoverState) (l : Loop)
      → st.deployment_id ≡ dep
      → used row.railway_service_id dep (beats l) ≡ st.recoveries_used
      → IsBalanced dep l (probe_row env now row a url st l)
  unfolding probe_row note_activity
  probe_row-IsBalanced url dep st l same e =
      subst
        (λ d.
          used row.railway_service_id d (beats l) ≡ st.recoveries_used
          → IsBalanced d l (probe_row env now row a url st l))
        same (λ e. rw e (conclude-balance url (ping_heartbeat_url a.fetched) _ st _)) e

  heartbeat_row-IsBalanced :
      (url : String) (l : Loop)
      → build_heartbeat_probe_url env row.railway_public_url row.service ≡ some url
      → IsBalanced (deployment_id_of row) l (heartbeat_row env now row a l)
  unfolding heartbeat_row
  heartbeat_row-IsBalanced url l probed = elim (Bool-cases (railway_heartbeat_enabled env)) [
    | inr off ↦
        rw off (ap (λ n. n + mine l.requests) (used-touch row.railway_service_id _ _ (beats l)))
    | inl on ↦ rw on (
        rw (probed, heartbeat_row)
          (let sid = row.railway_service_id in
            let dep = deployment_id_of row in
            let cur = current_status row in
            let (count, same) = used-current_state sid dep cur (beats l) in
            let kept = used-touch sid dep cur (beats l) in
            omega (
              arith,
              kept,
              probe_row-IsBalanced url dep (current_state (get (beats l) sid) dep cur)
                  (record l {
                    state = record (l.state) {
                      heartbeat_recover_state = touch (beats l) sid dep cur;
                    };
                  })
                  same (kept ∙ sym count),
            )))
  ]

  pub visit-IsBalanced :
      (url : String) (l : Loop)
      → build_heartbeat_probe_url env row.railway_public_url row.service ≡ some url
      → IsBalanced (deployment_id_of row) l (visit env now row a l)
  unfolding visit remember
  visit-IsBalanced url l probed =
      let l₁ = redeem env now row a l in
      let l₂ = heartbeat_row env now row a l₁ in
      let l₃ = forget_cooldown row l₂ in
      let l₄ = auto_recover_row env now row a l₃ in
      let before = get (l.state).prev row.railway_service_id in
      let same₁ : mine l₁.requests ≡ mine l.requests = elim (redeem-requests env now row a l) [
        | inl e ↦ ap mine e
        | inr (e, _) ↦ rw e (redeploys-snoc row.railway_service_id _ _ ∙ omega arith)
      ] in
      let same₃ : mine l₃.requests ≡ mine l₂.requests =
        ap mine (forget_cooldown-requests env now row a l₂) in
      let same₄ : mine l₄.requests ≡ mine l₃.requests =
        elim (auto_recover_row-requests env now row a l₃) [
          | inl e ↦ ap mine e
          | inr (e, _) ↦ rw e (redeploys-snoc row.railway_service_id _ _ ∙ omega arith)
        ] in
      let same₅ = ap mine (transitions-requests env now row a before l₄) in
      let counted = used row.railway_service_id (deployment_id_of row) in
      omega (
        arith,
        heartbeat_row-IsBalanced url l₁ probed,
        ap counted (redeem-beats env now row a l),
        ap counted (forget_cooldown-beats env now row a l₂),
        ap counted (auto_recover_row-beats env now row a l₃),
        ap counted (transitions-beats env now row a before l₄),
        same₁,
        same₃,
        same₄,
        same₅,
      )
