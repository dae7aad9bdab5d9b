-- ===== src/Tick/AutoRecover.antt =====
-- railway-watchdog-tick.ts: the redeployment of a crashed or failed service.
use pe_hackathon.Base.{
  ℕ, ◌+◌, Bool, false, not, ◌&&◌, Option, none, some, String, [], ◌∷◌, ltb, if◌then◌else◌, Outcome,
  returned, threw,
}
use pe_hackathon.Base.Store.{get, put, delete}
use pe_hackathon.Text.{template, show}
use pe_hackathon.Env.{Env}
use pe_hackathon.Visibility.Rows.{RailwayVisibilityRow}
use pe_hackathon.Tick.State.{
  Loop, Answers, auto_redeploy, auto_check, auto_set, auto_event_id, push_event,
  railway_auto_recover, log_in, note_activity, recover_cooldown_ms,
}
use pe_hackathon.Tick.Settings.{auto_recover}
use pe_hackathon.Tick.Status.{
  is_healthy, is_deploying, needs_auto_recover_trigger, display_name, current_status,
}
use pe_hackathon.Tick.Redeem.{deploy_entry, request_deploy, deploy_outcome}

-- `if (isHealthy(cur)) recoverCooldown.delete(sid);`
unfoldable pub forget_cooldown : RailwayVisibilityRow → Loop → Loop
forget_cooldown row l =
    if is_healthy (current_status row)
    then record l {
      state = record (l.state) {
        recover_cooldown = delete (l.state).recover_cooldown row.railway_service_id;
      };
    }
    else l

unfoldable pub auto_recover_triggered : Env → RailwayVisibilityRow → Bool
auto_recover_triggered env row =
    auto_recover env
    && needs_auto_recover_trigger (current_status row)
    && not (is_deploying (current_status row))

-- `lastAttempt != null && Date.now() - lastAttempt < RECOVER_COOLDOWN_MS`
unfoldable pub cooling_down : Option ℕ → ℕ → Bool
cooling_down none now_ms = false
cooling_down (some last) now_ms = ltb now_ms (last + recover_cooldown_ms)

auto_recovered : String → RailwayVisibilityRow → Answers → Loop → Loop
auto_recovered now row a l =
    let sid = row.railway_service_id in
    let name = display_name row in
    let noted = note_activity l (
      deploy_entry a auto_redeploy
        (template ("serviceInstanceDeploy auto-recover (" ∷ name ∷ ")" ∷ []))) in
    let marked = record noted {
      state = record (noted.state) {
        recover_cooldown = put (noted.state).recover_cooldown sid (a.clock auto_set);
      };
    } in
    log_in
      (push_event marked (record {
        id = template (sid ∷ "-autorecover-" ∷ show (a.clock auto_event_id) ∷ []);
        at = now;
        service = name;
        kind = railway_auto_recover;
        message = template (
            "Watchdog triggered serviceInstanceDeploy(latest) for "
            ∷ name
            ∷ " (was "
            ∷ current_status row
            ∷ ")."
            ∷ []);
      }))
      (template (
        "watchdog: auto-redeploy "
        ∷ name
        ∷ " ("
        ∷ current_status row
        ∷ ") → serviceInstanceDeploy"
        ∷ []))

settle_auto_recover : String → RailwayVisibilityRow → Answers → Loop → Outcome (Unit {0}) → Loop
settle_auto_recover now row a l (returned _) = auto_recovered now row a l
settle_auto_recover now row a l (threw msg) =
    log_in l (template ("watchdog: auto-redeploy failed " ∷ display_name row ∷ ": " ∷ msg ∷ []))

unfoldable pub auto_recover_row : Env → String → RailwayVisibilityRow → Answers → Loop → Loop
unfolding settle_auto_recover auto_recovered
auto_recover_row env now row a l =
    let last = get (l.state).recover_cooldown row.railway_service_id in
    if auto_recover_triggered env row && not (cooling_down last (a.clock auto_check))
    then settle_auto_recover now row a (request_deploy env auto_redeploy row.railway_service_id l)
        (deploy_outcome env a auto_redeploy)
    else l
