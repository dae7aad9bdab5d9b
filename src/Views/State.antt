-- ===== src/Views/State.antt =====
-- dashboard/src/app/api/visibility/docker/chaos/status/route.ts
use pe_hackathon.Base.{
  ℕ, Bool, true, false, not, ◌&&◌, ◌||◌, Option, none, some, String, List, [], ◌∷◌, ◌==◌,
  if◌then◌else◌, or_else, is_some, find, Outcome, returned, threw,
}
use pe_hackathon.Text.{is_empty, truthy, trim, to_lower, equals, template}
use pe_hackathon.Env.{Env}
use pe_hackathon.Visibility.Graphql.{Reply}
use pe_hackathon.Visibility.Status.{RailwayOnlineStatus}
use pe_hackathon.Visibility.Rows.{
  RailwayVisibilityRow, VisibilityRows, Project, DeploymentsBatch, fetch_railway_visibility_rows,
  railway_ids_configured, railway_visibility_configured,
}
use pe_hackathon.Heartbeat.{
  HeartbeatPingResult, Fetched, ping_heartbeat_url, build_heartbeat_probe_url,
}
use pe_hackathon.Lifecycle.{
  HeartbeatExitLifecycleState, effective_railway_online_status_after_probe,
}
use pe_hackathon.Chaos.Guards.{compose_project}
use pe_hackathon.Views.Inspect.{Inspection, DockerState, docker_state, container_of_service}
use pe_hackathon.Views.Table.{Container}

pub record RailwayState : Type 0 where
  pub container_id : String
  pub name : String
  pub service : String
  pub state : String
  pub running : Bool
  pub restarting : Bool
  pub deployment_status : Option String
  pub health : Option String
  pub railway_service_id : String
  pub railway_deployment_id : Option String
  pub status_line : String
  pub railway_online_status : RailwayOnlineStatus
  pub railway_public_url : Option String
  pub heartbeat : HeartbeatPingResult

-- `unavailable` has the status 503 and `found: false`, `not_found` the status 200.
pub data StateResponse : Type 0 where
  denied : (status : ℕ) → (error : String) → StateResponse
  unavailable : (error : String) → StateResponse
  not_found : (service message : String) → StateResponse
  found_railway : RailwayState → StateResponse
  found_docker : DockerState → StateResponse

-- `fetched` is for the probe of the one row; `list` and `inspect` throw where Docker cannot be reached.
pub record StateWorld : Type 0 where
  pub project_reply : Reply (Option Project)
  pub batch_reply : Reply DeploymentsBatch
  pub fetched : Fetched
  pub list : Outcome (List Container)
  pub inspect : String → Outcome Inspection

unfoldable pub state_heartbeat : Env → RailwayVisibilityRow → Fetched → HeartbeatPingResult
state_heartbeat env row fetched =
    elim (build_heartbeat_probe_url env row.railway_public_url row.service) [
      | some url ↦
          let pr = ping_heartbeat_url fetched in
          record {
            railway_service_id = row.railway_service_id;
            service = row.service;
            probe_url = some url;
            skipped = false;
            ok = some pr.ok;
            status_code = pr.status_code;
            latency_ms = some pr.latency_ms;
            error = truthy pr.error;
          }
      | none ↦ record {
        railway_service_id = row.railway_service_id;
        service = row.service;
        probe_url = none;
        skipped = true;
        ok = none;
        status_code = none;
        latency_ms = none;
        error = none;
      }
    ]

abbrev pub railway_state :
    RailwayVisibilityRow → RailwayOnlineStatus → HeartbeatPingResult → RailwayState
railway_state row status heartbeat = record {
  container_id = or_else row.railway_deployment_id row.id;
  name = row.name;
  service = row.service;
  state = row.state;
  running = row.state == "running";
  restarting = equals row.deployment_status "DEPLOYING" || equals row.deployment_status "BUILDING";
  deployment_status = row.deployment_status;
  health = row.health;
  railway_service_id = row.railway_service_id;
  railway_deployment_id = row.railway_deployment_id;
  status_line = row.status;
  railway_online_status = status;
  railway_public_url = row.railway_public_url;
  heartbeat = heartbeat;
}

-- The row is found: it is probed, and the lifecycle is told of the result and schedules nothing.
unfoldable pub found_row :
    Env
    → RailwayVisibilityRow
    → Fetched
    → HeartbeatExitLifecycleState
    → HeartbeatExitLifecycleState × StateResponse
found_row env row fetched st =
    let heartbeat = state_heartbeat env row fetched in
    let (after, status) =
      effective_railway_online_status_after_probe env st row.railway_service_id
        (or_else row.railway_deployment_id "") row.railway_online_status (some heartbeat) false in
    (after, found_railway (railway_state row status heartbeat))

abbrev pub is_named : String → RailwayVisibilityRow → Bool
is_named name row = to_lower (trim row.service) == to_lower name

-- The Railway branch, from the rows on.
unfoldable pub state_of_rows :
    Env
    → String
    → VisibilityRows
    → Fetched
    → HeartbeatExitLifecycleState
    → HeartbeatExitLifecycleState × StateResponse
state_of_rows env name r fetched st = elim (truthy r.error) [
  | some msg ↦ (st, unavailable msg)
  | none ↦ elim (find (is_named name) r.containers) [
    | none ↦ (
      st,
      not_found name (template ("No Railway service named \"" ∷ name ∷ "\" in this project." ∷ [])),
    )
    | some row ↦ found_row env row fetched st
  ]
]

-- The Docker branch, from the inspection on.
unfoldable pub state_of_container :
    Env → Option String → String → Outcome Inspection → StateResponse
unfolding docker_state
state_of_container env service id (threw msg) = unavailable msg
state_of_container env service id (returned info) =
    let proj = or_else info.project_label "" in
    if not (is_empty proj) && proj == compose_project env
    then found_docker (docker_state id service info proj)
    else denied 403
        "Container is not part of the configured Compose project (check VISIBILITY_COMPOSE_PROJECT)."

-- The container's id is given, or found in the list.
unfoldable pub state_docker : Env → StateWorld → Option String → Option String → StateResponse
state_docker env w service id = elim (truthy id) [
  | some i ↦ state_of_container env service i (w.inspect i)
  | none ↦ elim w.list [
    | threw msg ↦ unavailable msg
    | returned all ↦ elim (container_of_service (compose_project env) (or_else service "") all) [
      | some c ↦ state_of_container env service c.id (w.inspect c.id)
      | none ↦ not_found (or_else service "") (
          template (
            "No container for service \""
            ∷ or_else service ""
            ∷ "\" in project "
            ∷ compose_project env
            ∷ "."
            ∷ []))
    ]
  ]
]

abbrev trimmed : Option String → Option String
trimmed none = none
trimmed (some s) = some (trim s)

-- The handler, with the parameters `service` and `id` of the request.
unfoldable pub get_state :
    Env
    → Option String
    → Option String
    → StateWorld
    → HeartbeatExitLifecycleState
    → HeartbeatExitLifecycleState × StateResponse
get_state env service_param id_param w st =
    let service = trimmed service_param in
    let id = trimmed id_param in
    let name = or_else service "" in
    if not (is_some (truthy service)) && not (is_some (truthy id))
    then (st, denied 400 "Query parameter required: service=<compose-service> or id=<container-id>")
    else if not (railway_ids_configured env)
    then (st, state_docker env w service id)
    else if not (railway_visibility_configured env)
    then (st, denied 503 "Railway API token missing for chaos status.")
    else if is_empty name
    then (st, denied 400 "For Railway, use service=<railway-service-name>")
    else state_of_rows env name (fetch_railway_visibility_rows env w.project_reply w.batch_reply)
        w.fetched st
