-- ===== src/Tests/Chaos.antt =====
-- The theorems about the chaos routes, their policy, and the halting of a deployment.
use pe_hackathon.Base.{◌≡◌, ◌≢◌, ◌↔◌, ◌⊎◌, refl, true, none, some, String, [], ◌∷◌, map, returned}
use pe_hackathon.Text.{trim}
use pe_hackathon.Visibility.Graphql.{unreachable, replied, railway_graphql}
use pe_hackathon.Visibility.Rows.{RailwayVisibilityRow, fetch_railway_visibility_rows}
use pe_hackathon.Visibility.Halt.{
  stop, remove, deployment_stop, deployment_remove, deployment_restart,
  railway_chaos_halt_deployment,
}
use pe_hackathon.Visibility.Halt.Laws.{halt_cases}
use pe_hackathon.Chaos.Guards.{
  ChaosBody, ContainerInfo, railway_mutation, container_kill, container_restart,
}
use pe_hackathon.Chaos.Kill.{KillWorld, post_kill}
use pe_hackathon.Chaos.Restart.{RestartWorld, post_restart}
use pe_hackathon.Chaos.Safety.{
  MayActOnContainer, IsTarget, post_kill-container, post_restart-container, post_kill-railway,
  post_restart-railway,
}
use pe_hackathon.Env.{Env}
use pe_hackathon.Tests.Fixtures.{env}

abbrev redis : ContainerInfo
redis = record { service_label = some "redis"; project_label = some "pe-hackathon-2026" }

abbrev kill_world : KillWorld
kill_world = record {
  project_reply = replied 200 [] (
      some (
        some (record {
          name = "shop";
          edges = some (record { id = "ui"; name = "user-frontend" }) ∷ [];
        })));
  batch_reply = unreachable "timeout";
  stop_reply = replied 200 [] (some none);
  remove_reply = replied 200 [] (some (some true));
  inspect = returned redis;
  kill = returned tt;
}

abbrev restart_world : RestartWorld
restart_world = record {
  project_reply = unreachable "timeout";
  batch_reply = unreachable "timeout";
  restart_reply = replied 200 [] (some (some true));
  inspect = returned redis;
  restart = returned tt;
}

abbrev redis_body : ChaosBody
redis_body = record {
  container_id = some "c0ffee";
  railway_service_id = none;
  confirm_service = some " Redis ";
}

abbrev railway_body : ChaosBody
railway_body = record {
  container_id = none;
  railway_service_id = some "ui";
  confirm_service = some "user-frontend";
}

post_kill-container_example :
    (((post_kill env none kill_world (some redis_body)).1 ≡ container_kill "c0ffee" ∷ [])
      ↔ MayActOnContainer env none redis_body redis)
    × (((post_kill env none kill_world (some redis_body)).1 ≡ [])
        ⊎ ((post_kill env none kill_world (some redis_body)).1 ≡ container_kill "c0ffee" ∷ []))
unfolding trim
post_kill-container_example = post_kill-container env none kill_world redis_body redis refl refl

post_restart-container_example :
    (((post_restart env none restart_world (some redis_body)).1
        ≡ container_restart "c0ffee" 10 ∷ [])
      ↔ MayActOnContainer env none redis_body redis)
    × (((post_restart env none restart_world (some redis_body)).1 ≡ [])
        ⊎ ((post_restart env none restart_world (some redis_body)).1
            ≡ container_restart "c0ffee" 10 ∷ []))
unfolding trim
post_restart-container_example =
    post_restart-container env none restart_world redis_body redis refl refl

post_kill-railway_example :
    let table = fetch_railway_visibility_rows env kill_world.project_reply kill_world.batch_reply in
    ((post_kill env none kill_world (some railway_body)).1 ≡ [])
    ⊎ ((row : RailwayVisibilityRow) × (dep : String) × IsTarget env none railway_body table row dep
        × ((post_kill env none kill_world (some railway_body)).1
            ≡ map railway_mutation
                (railway_chaos_halt_deployment env dep kill_world.stop_reply
                  kill_world.remove_reply).1))
unfolding trim
post_kill-railway_example = post_kill-railway env none kill_world railway_body refl

post_restart-railway_example :
    let table =
      fetch_railway_visibility_rows env restart_world.project_reply restart_world.batch_reply in
    ((post_restart env none restart_world (some railway_body)).1 ≡ [])
    ⊎ ((row : RailwayVisibilityRow) × (dep : String) × IsTarget env none railway_body table row dep
        × ((post_restart env none restart_world (some railway_body)).1
            ≡ railway_mutation (deployment_restart dep) ∷ []))
unfolding trim
post_restart-railway_example = post_restart-railway env none restart_world railway_body refl

abbrev no_settings : Env
no_settings key = none

halt_cases_example :
    let stop_reply = kill_world.stop_reply in
    let remove_reply = kill_world.remove_reply in
    let r = railway_chaos_halt_deployment env "dep-2" stop_reply remove_reply in
    ((railway_graphql env stop_reply ≡ returned (some true))
      × (r.0 ≡ returned stop)
      × (r.1 ≡ deployment_stop "dep-2" ∷ []))
    ⊎ ((railway_graphql env stop_reply ≢ returned (some true))
        × (r.1 ≡ deployment_stop "dep-2" ∷ deployment_remove "dep-2" ∷ [])
        × ((r.0 ≡ returned remove) ↔ (
            (railway_graphql env remove_reply ≡ returned none)
            ⊎ (railway_graphql env remove_reply ≡ returned (some true))))
        × (r.0 ≢ returned stop))
halt_cases_example = halt_cases env "dep-2" kill_world.stop_reply kill_world.remove_reply
