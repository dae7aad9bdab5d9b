-- ===== src/Views/Table.antt =====
-- dashboard/src/app/api/visibility/docker/route.ts, for requests without `stats=1`.
use pe_hackathon.Base.{
  ℕ, code, Bool, false, not, ◌||◌, Option, none, some, String, List, [], ◌∷◌, ◌==◌, eqb,
  if◌then◌else◌, or_else, is_some, keep, map, Outcome, returned, threw,
}
use pe_hackathon.Base.Store.{Store, get, put}
use pe_hackathon.Text.{truthy, includes}
use pe_hackathon.Env.{Env}
use pe_hackathon.Visibility.Graphql.{Reply}
use pe_hackathon.Visibility.Rows.{
  RailwayVisibilityRow, VisibilityRows, Project, DeploymentsBatch, fetch_railway_visibility_rows,
  railway_ids_configured, railway_visibility_configured,
}
use pe_hackathon.Heartbeat.{HeartbeatPingResult, Fetched, ping_railway_service_heartbeats}
use pe_hackathon.Lifecycle.{
  HeartbeatExitLifecycleState, effective_railway_online_status_after_probe,
}
use pe_hackathon.Chaos.Guards.{compose_project}

-- What `listContainers` tells of a container.
pub record Container : Type 0 where
  pub id : String
  pub names : Option (List String)
  pub image : String
  pub state : String
  pub status : Option String
  pub created : ℕ
  pub service_label : Option String
  pub project_label : Option String

-- A row of the table: `railway_online_status` is the one after the probe.
pub record BeatRow : Type 0 where
  pub row : RailwayVisibilityRow
  pub heartbeat : Option HeartbeatPingResult

pub record DockerRow : Type 0 where
  pub id : String
  pub name : String
  pub image : String
  pub state : String
  pub status : String
  pub service : String
  pub health : Option String
  pub created : ℕ

-- `docker_unreachable` has the status 503.
pub data TableResponse : Type 0 where
  railway_table :
      (project project_id : Option String) → List BeatRow → (error : Option String) → TableResponse
  docker_table : (project : String) → List DockerRow → TableResponse
  docker_unreachable : (error project : String) → TableResponse

-- What Railway, the services and Docker answer; `fetched i` is for the i-th row's probe.
pub record TableWorld : Type 0 where
  pub project_reply : Reply (Option Project)
  pub batch_reply : Reply DeploymentsBatch
  pub fetched : ℕ → Fetched
  pub containers : Outcome (List Container)

-- `new Map(beats.map((b) => [b.railwayServiceId, b]))`
unfoldable pub beats_by_id :
    Store HeartbeatPingResult → List HeartbeatPingResult → Store HeartbeatPingResult
beats_by_id m [] = m
beats_by_id m (b ∷ bs) = beats_by_id (put m b.railway_service_id b) bs

-- The lifecycle is told of the result, and schedules nothing.
unfoldable pub show_row :
    Env
    → Option HeartbeatPingResult
    → RailwayVisibilityRow
    → HeartbeatExitLifecycleState
    → HeartbeatExitLifecycleState × BeatRow
show_row env hb row st =
    let (after, status) =
      effective_railway_online_status_after_probe env st row.railway_service_id
        (or_else row.railway_deployment_id "") row.railway_online_status hb false in
    (after, record { row = record row { railway_online_status = status }; heartbeat = hb })

unfoldable pub show_rows :
    Env
    → Store HeartbeatPingResult
    → List RailwayVisibilityRow
    → HeartbeatExitLifecycleState
    → HeartbeatExitLifecycleState × List BeatRow
show_rows env beats [] st = (st, [])
show_rows env beats (row ∷ rows) st =
    let shown = show_row env (get beats row.railway_service_id) row st in
    let rest = show_rows env beats rows shown.0 in (rest.0, shown.1 ∷ rest.1)

abbrev without_beat : RailwayVisibilityRow → BeatRow
without_beat row = record { row = row; heartbeat = none }

-- The Railway branch, from the rows on.
unfoldable pub railway_rows :
    Env
    → Bool
    → (ℕ → Fetched)
    → VisibilityRows
    → HeartbeatExitLifecycleState
    → HeartbeatExitLifecycleState × TableResponse
railway_rows env heartbeats fetched r st =
    let beats = beats_by_id [] (ping_railway_service_heartbeats env fetched 0 r.containers) in
    let shown = show_rows env beats r.containers st in
    if is_some (truthy r.error) || not heartbeats
    then (st, railway_table r.project r.project_id (map without_beat r.containers) r.error)
    else (shown.0, railway_table r.project r.project_id shown.1 r.error)

-- The health that a status text of Docker tells.
unfoldable pub health_from_status : String → Option String
health_from_status status =
    if includes status "(healthy)"
    then some "healthy"
    else if includes status "(unhealthy)"
    then some "unhealthy"
    else if includes status "(health: starting)"
    then some "starting"
    else none

-- `s.replace(/^\//, "")`
unfoldable pub without_slash : String → String
without_slash String.[] = ""
without_slash (String.◌∷◌ c s) = if eqb (code c) b'/' then s else String.◌∷◌ c s

-- `c.Names?.[0]?.replace(/^\//, "") ?? ""`
first_name : Option (List String) → String
unfolding without_slash
first_name none = ""
first_name (some []) = ""
first_name (some (s ∷ ss)) = without_slash s

docker_row : Container → DockerRow
docker_row c = record {
  id = c.id;
  name = first_name c.names;
  image = c.image;
  state = c.state;
  status = or_else c.status "";
  service = or_else c.service_label "";
  health = health_from_status (or_else c.status "");
  created = c.created;
}

in_project : String → Container → Bool
in_project project c = elim c.project_label [ none ↦ false | some p ↦ p == project ]

-- The Docker branch.
unfoldable pub docker_rows : String → Outcome (List Container) → TableResponse
unfolding docker_row first_name in_project
docker_rows project (threw msg) = docker_unreachable msg project
docker_rows project (returned all) =
    docker_table project (map docker_row (keep (in_project project) all))

abbrev no_token_text : String
no_token_text =
    "Set RAILWAY_PROJECT_TOKEN or RAILWAY_API_TOKEN on the dashboard service (variable names must not have leading/trailing spaces). Redeploy after fixing."

-- The handler; `st` is the lifecycle that the views share. The debug snapshot is left out.
unfoldable pub get_visibility :
    Env
    → Bool
    → TableWorld
    → HeartbeatExitLifecycleState
    → HeartbeatExitLifecycleState × TableResponse
get_visibility env heartbeats w st =
    let pid = some (or_else (env "RAILWAY_PROJECT_ID") "") in
    if not (railway_ids_configured env)
    then (st, docker_rows (compose_project env) w.containers)
    else if not (railway_visibility_configured env)
    then (st, railway_table pid pid [] (some no_token_text))
    else railway_rows env heartbeats w.fetched
        (fetch_railway_visibility_rows env w.project_reply w.batch_reply) st
