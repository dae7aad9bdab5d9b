-- ===== src/Tests/Views.antt =====
-- The theorems about the views of the services.
use pe_hackathon.Base.{◌≡◌, refl, true, none, some, find, has, [], ◌∷◌, returned, threw}
use pe_hackathon.Base.Store.{put}
use pe_hackathon.Text.{show}
use pe_hackathon.Visibility.Graphql.{replied}
use pe_hackathon.Visibility.Rows.{
  RailwayVisibilityRow, fetch_railway_visibility_rows, railway_visibility_configured,
  railway_ids_configured, rows_of_services, rows_from,
}
use pe_hackathon.Visibility.Status.{
  online, deployment_status_to_state, deployment_status_to_railway_ui,
}
use pe_hackathon.Heartbeat.{responded, failed}
use pe_hackathon.Lifecycle.{create_heartbeat_exit_lifecycle_state}
use pe_hackathon.Tick.Run.{service_ids}
use pe_hackathon.Views.Table.{TableWorld, railway_table, get_visibility}
use pe_hackathon.Views.State.{StateWorld, get_state, found_railway, railway_state, state_heartbeat}
use pe_hackathon.Views.Scheduling.{SchedulesNothing, views-SchedulesNothing}
use pe_hackathon.Views.Agreement.{
  AllDistinct, shown_alone, shown_apart, table-apart, state_as_in_table,
}
use pe_hackathon.Tests.Fixtures.{env, settings_read}

abbrev table_world : TableWorld
table_world = record {
  project_reply = replied 200 [] (
      some (
        some (record {
          name = "shop";
          edges =
              some (record { id = "ui"; name = "user-frontend" })
              ∷ some (record { id = "lb"; name = "load-balancer" })
              ∷ [];
        })));
  batch_reply = replied 200 [] (
      some (
        (
          "d0",
          record {
            id = "dep-2";
            status = some "SUCCESS";
            created_ms = some 5000;
            url = none;
            static_url = some "ui.example.com";
          }
              ∷ [],
        )
        ∷ []));
  fetched = λ i. failed "connect ECONNREFUSED" 3;
  containers = returned [];
}

abbrev state_world : StateWorld
state_world = record {
  project_reply = table_world.project_reply;
  batch_reply = table_world.batch_reply;
  fetched = responded 200 8;
  list = returned [];
  inspect = λ id. threw "no such container";
}

views-SchedulesNothing_example :
    SchedulesNothing create_heartbeat_exit_lifecycle_state
      (get_visibility env true table_world create_heartbeat_exit_lifecycle_state).0
    × SchedulesNothing create_heartbeat_exit_lifecycle_state
        (get_state env
          (some "user-frontend")
          none
          state_world
          create_heartbeat_exit_lifecycle_state).0
views-SchedulesNothing_example =
    views-SchedulesNothing env create_heartbeat_exit_lifecycle_state true table_world
      (some "user-frontend") none state_world

table-apart_example :
    let r = fetch_railway_visibility_rows env table_world.project_reply table_world.batch_reply in
    (get_visibility env true table_world create_heartbeat_exit_lifecycle_state).1
    ≡ railway_table r.project r.project_id
        (shown_apart env create_heartbeat_exit_lifecycle_state table_world.fetched 0 r.containers)
        r.error
unfolding settings_read fetch_railway_visibility_rows railway_visibility_configured
    railway_ids_configured rows_of_services rows_from AllDistinct service_ids has show
table-apart_example =
    table-apart env table_world create_heartbeat_exit_lifecycle_state refl refl (refl, (refl, tt))

abbrev ui_row : RailwayVisibilityRow
ui_row = record {
  id = "dep-2";
  name = "user-frontend";
  image = "Railway";
  state = "running";
  status = "SUCCESS · ui.example.com";
  deployment_status = some "SUCCESS";
  railway_online_status = online;
  service = "user-frontend";
  health = some "healthy";
  created = 5;
  railway_service_id = "ui";
  railway_deployment_id = some "dep-2";
  railway_public_url = some "ui.example.com";
}

state_as_in_table_example :
    let shown =
      shown_alone env create_heartbeat_exit_lifecycle_state (state_world).fetched ui_row in
    let heartbeat = state_heartbeat env ui_row (state_world).fetched in
    ((get_state env
        (some " User-Frontend")
        none
        state_world
        create_heartbeat_exit_lifecycle_state).1
      ≡ found_railway (railway_state ui_row (shown.row).railway_online_status heartbeat))
    × (shown.heartbeat ≡ some heartbeat)
unfolding settings_read fetch_railway_visibility_rows railway_visibility_configured
    railway_ids_configured rows_of_services rows_from deployment_status_to_state
    deployment_status_to_railway_ui find has show put
state_as_in_table_example =
    state_as_in_table env state_world create_heartbeat_exit_lifecycle_state " User-Frontend" none
      ui_row refl refl refl refl
