-- ===== src/Tick/Misses.antt =====
-- railway-watchdog-tick.ts: the missed beats of a service, and the redeployment after enough of them.
use pe_hackathon.Base.{
  ℕ, ◌+◌, ◌-◌, ◌/◌, Bool, true, false, not, ◌&&◌, ◌||◌, Option, none, some, String, [], ◌∷◌, ltb,
  leb, eqb, ◌==◌, if◌then◌else◌, or_else, Outcome, returned, threw,
}
use pe_hackathon.Base.Store.{Store, get, put}
use pe_hackathon.Text.{truthy, template, show}
use pe_hackathon.Env.{Env}
use pe_hackathon.Visibility.Rows.{RailwayVisibilityRow}
use pe_hackathon.Tick.State.{
  HeartbeatRecoverState, Loop, Answers, heartbeat_redeploy, cooldown_check, cooldown_log,
  recover_set, recover_event_id, push_event, heartbeat_recover, log_in, note_activity,
}
use pe_hackathon.Tick.Settings.{
  heartbeat_miss_threshold, heartbeat_max_recover_per_epoch, heartbeat_recover_cooldown_ms,
}
use pe_hackathon.Tick.Status.{display_name, deployment_id_of, current_status}
use pe_hackathon.Tick.Redeem.{deploy_entry, request_deploy, deploy_outcome}

fresh_state : String → String → HeartbeatRecoverState
fresh_state dep cur = record {
  deployment_id = dep;
  deployment_status = cur;
  consecutive_misses = 0;
  recoveries_used = 0;
  logged_budget_exhausted = false;
  logged_cooldown_wait = false;
}

-- `hbSt` at the start of the round.
unfoldable pub current_state :
    Option HeartbeatRecoverState → String → String → HeartbeatRecoverState
unfolding fresh_state
current_state none dep cur = fresh_state dep cur
current_state (some st) dep cur =
    if st.deployment_id == dep then record st { deployment_status = cur } else fresh_state dep cur

-- An object of the map is written in place: its `deploymentStatus` changes there too.
unfoldable pub touch :
    Store HeartbeatRecoverState → String → String → String → Store HeartbeatRecoverState
touch m sid dep cur = elim (get m sid) [
  | none ↦ m
  | some st ↦
      if st.deployment_id == dep then put m sid (record st { deployment_status = cur }) else m
]

-- `canRecover`
unfoldable pub can_recover : Env → HeartbeatRecoverState → Bool
can_recover env st =
    ltb 0 (heartbeat_max_recover_per_epoch env)
    && ltb st.recoveries_used (heartbeat_max_recover_per_epoch env)

-- `cooldownOk`
unfoldable pub cooldown_ok : Env → ℕ → ℕ → Bool
cooldown_ok env last now_ms =
    eqb (heartbeat_recover_cooldown_ms env) 0
    || leb (last + heartbeat_recover_cooldown_ms env) now_ms

-- `Math.round(ms / unit)` of a count of milliseconds, and of one that may be negative, `a - b`.
abbrev round_div : ℕ → ℕ → ℕ
round_div ms unit = (ms + unit / 2) / unit

show_round_difference : ℕ → ℕ → ℕ → String
show_round_difference a b unit =
    let below = (b - a + unit / 2 - 1) / unit in
    if leb b a
    then show (round_div (a - b) unit)
    else if eqb below 0
    then "0"
    else template ("-" ∷ show below ∷ [])

-- The state of the row's beat, and the loop's variables.
abbrev pub Beat : Type 0
Beat = HeartbeatRecoverState × Loop

recovered : Env → String → RailwayVisibilityRow → Answers → HeartbeatRecoverState → Loop → Beat
recovered env now row a st l =
    let sid = row.railway_service_id in
    let name = display_name row in
    let used = st.recoveries_used + 1 in
    let noted =
      note_activity l (
        deploy_entry a heartbeat_redeploy
          (template ("serviceInstanceDeploy(" ∷ name ∷ ")" ∷ []))) in
    let marked = record noted {
      state = record (noted.state) {
        heartbeat_last_recover_at =
            put (noted.state).heartbeat_last_recover_at sid (a.clock recover_set);
      };
    } in
    let budget = template (show used ∷ "/" ∷ show (heartbeat_max_recover_per_epoch env) ∷ []) in
    (
      record st {
        recoveries_used = used;
        consecutive_misses = 0;
        logged_budget_exhausted = false;
        logged_cooldown_wait = false;
      },
      log_in
          (push_event marked (record {
            id = template (sid ∷ "-heartbeat-" ∷ show (a.clock recover_event_id) ∷ []);
            at = now;
            service = name;
            kind = heartbeat_recover;
            message = template (
                "HTTP heartbeat failed "
                ∷ show (heartbeat_miss_threshold env)
                ∷ "+ time(s) for "
                ∷ name
                ∷ " (deployment "
                ∷ current_status row
                ∷ "); serviceInstanceDeploy(latest) ("
                ∷ budget
                ∷ " this deployment id). Next allowed after "
                ∷ show (round_div (heartbeat_recover_cooldown_ms env) 60000)
                ∷ "m cooldown."
                ∷ []);
          }))
          (template (
            "watchdog: heartbeat redeploy "
            ∷ name
            ∷ " (epoch "
            ∷ budget
            ∷ ") → serviceInstanceDeploy; cooldown "
            ∷ show (heartbeat_recover_cooldown_ms env)
            ∷ "ms"
            ∷ [])),
    )

settle_recover :
    Env
    → String
    → RailwayVisibilityRow
    → Answers
    → HeartbeatRecoverState
    → Loop
    → Outcome (Unit {0})
    → Beat
settle_recover env now row a st l (returned _) = recovered env now row a st l
settle_recover env now row a st l (threw msg) = (
  st,
  log_in l (template ("watchdog: heartbeat redeploy failed " ∷ display_name row ∷ ": " ∷ msg ∷ [])),
)

wait_for_cooldown : Env → ℕ → Answers → HeartbeatRecoverState → Loop → Beat
wait_for_cooldown env last a st l = (
  record st { logged_cooldown_wait = true },
  log_in l (
      template (
        "watchdog: heartbeat recover waiting on cooldown ("
        ∷ show_round_difference (heartbeat_recover_cooldown_ms env + last) (a.clock cooldown_log)
            1000
        ∷ "s left, "
        ∷ show (round_div (heartbeat_recover_cooldown_ms env) 60000)
        ∷ "m total); RAILWAY_HEARTBEAT_RECOVER_COOLDOWN_MS"
        ∷ [])),
)

pause : Env → RailwayVisibilityRow → HeartbeatRecoverState → Loop → Beat
pause env row st l = (
  record st { logged_budget_exhausted = true },
  log_in l (
      template (
        "watchdog: heartbeat recover paused for "
        ∷ display_name row
        ∷ " — max "
        ∷ show (heartbeat_max_recover_per_epoch env)
        ∷ " redeploy(s) for deployment id "
        ∷ or_else (truthy (some (deployment_id_of row))) "?"
        ∷ "; resets when Railway assigns a new deployment."
        ∷ [])),
)

-- After a counted miss.
unfoldable pub consider_recover :
    Env → String → RailwayVisibilityRow → Answers → HeartbeatRecoverState → Loop → Beat
unfolding settle_recover recovered wait_for_cooldown pause show_round_difference
consider_recover env now row a st l =
    let last = or_else (get (l.state).heartbeat_last_recover_at row.railway_service_id) 0 in
    let ok = cooldown_ok env last (a.clock cooldown_check) in
    if not (leb (heartbeat_miss_threshold env) st.consecutive_misses)
    then (st, l)
    else if can_recover env st
    then (if ok
        then settle_recover env now row a st
            (request_deploy env heartbeat_redeploy row.railway_service_id l)
            (deploy_outcome env a heartbeat_redeploy)
        else if st.logged_cooldown_wait
        then (st, l)
        else wait_for_cooldown env last a st l)
    else if st.logged_budget_exhausted
    then (st, l)
    else pause env row st l
