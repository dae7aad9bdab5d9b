-- ===== src/Chaos/Config.antt =====
-- dashboard/src/app/api/visibility/docker/chaos/config/route.ts
use pe_hackathon.Base.{Bool, not, ◌||◌, Option, none, some, String, List, if◌then◌else◌}
use pe_hackathon.Env.{Env}
use pe_hackathon.Policy.{blocked_services, chaos_kill_enabled, list_allowed_services_for_ui}
use pe_hackathon.Visibility.Rows.{railway_ids_configured, railway_visibility_configured}

pub record ChaosConfig : Type 0 where
  pub kill_enabled : Bool
  pub supports_docker_kill : Bool
  pub blocked_services : List String
  pub allowed_services : List String
  pub hint : Option String

unfoldable pub get_config : Env → Option String → ChaosConfig
get_config env node_env =
    let on_railway = railway_ids_configured env in
    let available = not on_railway || railway_visibility_configured env in
    record {
      kill_enabled = chaos_kill_enabled env node_env;
      supports_docker_kill = available;
      blocked_services = blocked_services;
      allowed_services = list_allowed_services_for_ui env;
      hint =
          if on_railway
          then (if available
              then some
                  "Hosted: Kill runs deploymentStop (service stays down until you Reboot or redeploy in Railway). Watchdog auto-redeploy only on CRASHED/FAILED, not after Kill. Set CHAOS_KILL_ENABLED=1 on this service to enable buttons in production."
              else some
                  "Set RAILWAY_PROJECT_TOKEN or RAILWAY_API_TOKEN on the dashboard service so chaos actions and visibility can call the Railway API.")
          else if chaos_kill_enabled env node_env
          then none
          else some
              "Set CHAOS_KILL_ENABLED=1 on the dashboard service, or run `next dev` locally (enabled by default in development).";
    }
