-- ===== src/Tests/Fixtures.antt =====
-- A small project on Railway: settings, services, rows and answers.
use pe_hackathon.Base.{ℕ, true, false, none, some, [], ◌==◌, if◌then◌else◌}
use pe_hackathon.Base.Store.{get}
use pe_hackathon.Text.{to_lower, to_upper, trim, parse_int, template}
use pe_hackathon.Env.{Env, get_railway_graphql_auth_headers, has_railway_graphql_credential}
use pe_hackathon.Lifecycle.{
  railway_heartbeat_exit_redeploy_enabled, heartbeat_exit_failure_threshold,
}
use pe_hackathon.Visibility.Halt.{railway_service_instance_deploy_latest}
use pe_hackathon.Tick.Settings.{
  auto_recover, railway_watchdog_auto_recover_enabled, environment_id_of, railway_heartbeat_enabled,
}
use pe_hackathon.Tick.Status.{
  is_healthy, is_deploying, needs_auto_recover_trigger, current_status, deployment_id_of,
}
use pe_hackathon.Heartbeat.{failed, HeartbeatPingResult}
use pe_hackathon.Visibility.Status.{online, failed as failed_status}
use pe_hackathon.Visibility.Graphql.{replied, unreachable, railway_graphql}
use pe_hackathon.Visibility.Rows.{RailwayVisibilityRow}
use pe_hackathon.Tick.State.{Answers, WatchdogPersistentState, Loop}
use pe_hackathon.Tick.Run.{TickInputs}

-- Automatic recovery has its environment, and requests have a token.
abbrev pub env : Env
env key =
    if key == "RAILWAY_ENVIRONMENT_ID"
    then some "production"
    else if key == "RAILWAY_PROJECT_ID"
    then some "project"
    else if key == "RAILWAY_PROJECT_TOKEN"
    then some "token"
    else if key == "CHAOS_KILL_ENABLED"
    then some "1"
    else none

abbrev pub crashed_row : RailwayVisibilityRow
crashed_row = record {
  id = "dep-1";
  name = "load-balancer";
  image = "Railway";
  state = "exited";
  status = "CRASHED";
  deployment_status = some "CRASHED";
  railway_online_status = failed_status;
  service = "load-balancer";
  health = some "unhealthy";
  created = 0;
  railway_service_id = "lb";
  railway_deployment_id = some "dep-1";
  railway_public_url = some "lb.example.com";
}

abbrev pub healthy_row : RailwayVisibilityRow
healthy_row = record {
  id = "dep-2";
  name = "user-frontend";
  image = "Railway";
  state = "running";
  status = "SUCCESS";
  deployment_status = some "SUCCESS";
  railway_online_status = online;
  service = "user-frontend";
  health = some "healthy";
  created = 0;
  railway_service_id = "ui";
  railway_deployment_id = some "dep-2";
  railway_public_url = some "ui.example.com";
}

-- Every call succeeds and every probe fails; the clock shows `ms`.
abbrev pub answers_at : ℕ → Answers
answers_at ms = record {
  deploy = λ site. record { reply = replied 200 [] (some (some true)); duration_ms = 12 };
  fetched = failed "connect ECONNREFUSED" 3;
  probe_ms = 3;
  clock = λ r. ms;
  stamp = λ s. "t";
}

abbrev pub inputs : TickInputs
inputs = record {
  project_reply = unreachable "getaddrinfo ENOTFOUND";
  batch_reply = unreachable "not asked";
  query_ms = 7;
  query_stamp = "t";
  now = "2026-04-05T12:00:00.000Z";
  answers = λ i. answers_at 100000;
}

abbrev pub missed_beat : HeartbeatPingResult
missed_beat = record {
  railway_service_id = "ui";
  service = "user-frontend";
  probe_url = some "https://ui.example.com/";
  skipped = false;
  ok = some false;
  status_code = none;
  latency_ms = some 3;
  error = some "connect ECONNREFUSED";
}

abbrev pub loop_with : WatchdogPersistentState → Loop
loop_with s = record {
  state = s;
  events = [];
  requests = [];
  hb_probes = 0;
  hb_ok = 0;
  hb_fail = 0;
  hb_skipped = 0;
}

-- What a test by evaluation unfolds.
unfoldable pub settings_read : Unit {0}
unfolding get to_lower to_upper trim parse_int auto_recover railway_watchdog_auto_recover_enabled
    environment_id_of railway_heartbeat_enabled railway_heartbeat_exit_redeploy_enabled
    heartbeat_exit_failure_threshold is_healthy is_deploying needs_auto_recover_trigger
    current_status deployment_id_of railway_graphql get_railway_graphql_auth_headers
    has_railway_graphql_credential template railway_service_instance_deploy_latest
settings_read = tt
