-- ===== src/Tick/Redeployments.antt =====
-- railway-watchdog-tick.ts: how often a sequence of ticks redeploys one deployment for its heartbeat.
use pe_hackathon.Base.{
  ℕ, ◌+◌, ◌≤◌, ◌≡◌, refl, subst, ◌∙◌, true, false, Option, none, some, String, List, [], ◌∷◌, ◌==◌,
  arith, returned, has,
}
use pe_hackathon.Base.Store.{Store, retain, get-retain}
use pe_hackathon.Env.{Env}
use pe_hackathon.Heartbeat.{build_heartbeat_probe_url}
use pe_hackathon.Visibility.Rows.{RailwayVisibilityRow}
use pe_hackathon.Tick.State.{
  Loop, Answers, heartbeat_redeploy, WatchdogPersistentState, HeartbeatRecoverState, push_activity,
}
use pe_hackathon.Tick.Settings.{heartbeat_max_recover_per_epoch}
use pe_hackathon.Tick.Status.{deployment_id_of}
use pe_hackathon.Tick.Redeem.{deploy_outcome}
use pe_hackathon.Tick.Run.{
  TickInputs, visit, visit_all, service_ids, forget_gone, note_query, finish, tick_rows, start,
}
use pe_hackathon.Tick.Budget.{
  IsWithinBudget, current_state-le, tick_rows-IsWithinBudget, log_tick-beats,
}
use pe_hackathon.Tick.Apart.{visit-get, visit-redeploys}
use pe_hackathon.Tick.Balance.{redeploys, used, used-ap, visit-IsBalanced}

abbrev beats : Loop → Store HeartbeatRecoverState
beats l = (l.state).heartbeat_recover_state

-- The result of one query, and what the world answers to the tick that follows it.
pub record Poll : Type 0 where
  pub inputs : TickInputs
  pub rows : List RailwayVisibilityRow
  pub error : Option String

module _ (env : Env) (sid dep : String) where
  -- The rows of the service show the deployment and have a URL to probe, and Railway accepts a heartbeat
  -- redeployment of them; `i` is the number of the round.
  pub data Watched (answers : ℕ → Answers) : ℕ → List RailwayVisibilityRow → Type 0 where
    finished : {i : ℕ} → Watched answers i []
    own :
        {i : ℕ} {row : RailwayVisibilityRow} {rows : List RailwayVisibilityRow} {url : String}
        → row.railway_service_id ≡ sid
        → deployment_id_of row ≡ dep
        → build_heartbeat_probe_url env row.railway_public_url row.service ≡ some url
        → deploy_outcome env (answers i) heartbeat_redeploy ≡ returned tt
        → Watched answers (i + 1) rows
        → Watched answers i (row ∷ rows)
    other :
        {i : ℕ} {row : RailwayVisibilityRow} {rows : List RailwayVisibilityRow}
        → (row.railway_service_id == sid) ≡ false
        → Watched answers (i + 1) rows
        → Watched answers i (row ∷ rows)

  -- The requests so far and the counter agree with those of another loop.
  abbrev IsBalanced : Loop → Loop → Type 0
  IsBalanced l l' =
      used sid dep (beats l') + redeploys sid l.requests
      ≡ used sid dep (beats l) + redeploys sid l'.requests

  own-IsBalanced :
      (now : String) (row : RailwayVisibilityRow) (a : Answers) (url : String) (l : Loop)
      → row.railway_service_id ≡ sid
      → deployment_id_of row ≡ dep
      → build_heartbeat_probe_url env row.railway_public_url row.service ≡ some url
      → deploy_outcome env a heartbeat_redeploy ≡ returned tt
      → IsBalanced l (visit env now row a l)
  own-IsBalanced now row a url l mine shown probed accepted =
      subst
        (λ s.
          used s dep (beats (visit env now row a l)) + redeploys s l.requests
          ≡ used s dep (beats l) + redeploys s (visit env now row a l).requests)
        mine
        (subst
          (λ d.
            used row.railway_service_id d (beats (visit env now row a l))
              + redeploys row.railway_service_id l.requests
            ≡ used row.railway_service_id d (beats l)
              + redeploys row.railway_service_id (visit env now row a l).requests)
          shown (visit-IsBalanced env now row a accepted url l probed))

  visit_all-IsBalanced :
      (now : String) (answers : ℕ → Answers) {i : ℕ} {rows : List RailwayVisibilityRow} (l : Loop)
      → Watched answers i rows
      → IsBalanced l (visit_all env now answers i rows l)
  unfolding visit_all
  visit_all-IsBalanced now answers l finished = refl
  visit_all-IsBalanced now answers {i} l
        (own {row = row} {url = url} mine shown probed accepted w) =
      omega (
        arith,
        own-IsBalanced now row (answers i) url l mine shown probed accepted,
        visit_all-IsBalanced now answers (visit env now row (answers i) l) w,
      )
  visit_all-IsBalanced now answers {i} l (other {row = row} ne w) = omega (
    arith,
    used-ap sid dep (beats (visit env now row (answers i) l)) (beats l)
        (visit-get env now row (answers i) sid ne l),
    visit-redeploys env now row (answers i) sid ne l,
    visit_all-IsBalanced now answers (visit env now row (answers i) l) w,
  )

  -- A poll that fails, or that shows the service, as described above.
  abbrev pub IsWatched : Poll → Type 0
  IsWatched p = elim p.error [
    | none ↦ (has (service_ids p.rows) sid ≡ true) × Watched (p.inputs).answers 0 p.rows
    | some msg ↦ Unit {0}
  ]

  abbrev pub AllWatched : List Poll → Type 0
  AllWatched [] = Unit {0}
  AllWatched (p ∷ ps) = IsWatched p × AllWatched ps

  tick_rows-counted :
      (w : TickInputs) (rows : List RailwayVisibilityRow) (error : Option String)
      (s : WatchdogPersistentState)
      → IsWatched (record { inputs = w; rows = rows; error = error })
      → used sid dep (tick_rows env w rows error s).state.heartbeat_recover_state
        ≡ used sid dep s.heartbeat_recover_state
          + redeploys sid (tick_rows env w rows error s).requests
  unfolding tick_rows note_query push_activity finish forget_gone redeploys
  tick_rows-counted w rows (some msg) s watched = omega arith
  tick_rows-counted w rows none s (shown, watched) =
      let ended = visit_all env w.now w.answers 0 rows (start (note_query w none s)) in
      rw (log_tick-beats _ _ _ _) (
        omega (
          arith,
          used-ap sid dep (retain (service_ids rows) (beats ended)) (beats ended)
              (get-retain (service_ids rows) (beats ended) sid ∙ rw shown refl),
          visit_all-IsBalanced w.now w.answers (start (note_query w none s)) watched,
        ))

  -- The heartbeat redeployments of the service in a sequence of ticks from a state.
  unfoldable pub redeployed : List Poll → WatchdogPersistentState → ℕ
  redeployed [] s = 0
  redeployed (p ∷ ps) s =
      let t = tick_rows env p.inputs p.rows p.error s in
      redeploys sid t.requests + redeployed ps t.state

  -- From a state whose counters of heartbeat redeployments are within `RAILWAY_HEARTBEAT_MAX_RECOVER`, as
  -- all are at the start, a sequence of ticks of any length under the same settings asks for no more
  -- heartbeat redeployments of a service than this maximum less those that are counted already, if each
  -- tick whose query succeeds sees the service, always with the same deployment and with a URL to probe,
  -- and Railway accepts the requests. Queries may fail in between, and other services are as they may.
  pub redeployed-le :
      (ps : List Poll) (s : WatchdogPersistentState)
      → IsWithinBudget env s.heartbeat_recover_state
      → AllWatched ps
      → used sid dep s.heartbeat_recover_state + redeployed ps s
        ≤ heartbeat_max_recover_per_epoch env
  unfolding redeployed used
  redeployed-le [] s within watched =
      omega (arith, current_state-le env s.heartbeat_recover_state sid dep "" within)
  redeployed-le (p ∷ ps) s within (now_watched, later) =
      let t = tick_rows env p.inputs p.rows p.error s in
      omega (
        arith,
        tick_rows-counted p.inputs p.rows p.error s now_watched,
        redeployed-le ps t.state (tick_rows-IsWithinBudget env p.inputs p.rows p.error s within)
            later,
      )
