-- ===== src/Views/Inspect.antt =====
-- chaos/status/route.ts: the state of a container, as Docker tells it.
use pe_hackathon.Base.{ℕ, Bool, ◌&&◌, Option, none, some, String, List, or_else, find}
use pe_hackathon.Text.{truthy, equals}
use pe_hackathon.Views.Table.{Container, health_from_status, without_slash}

-- What `inspect` tells of a container; a missing object has missing fields.
pub record Inspection : Type 0 where
  pub id : Option String
  pub name : Option String
  pub service_label : Option String
  pub project_label : Option String
  pub status : Option String
  pub running : Bool
  pub restarting : Bool
  pub exit_code : Option ℕ
  pub restart_count : Option ℕ
  pub restart_policy : Option String
  pub health : Option String
  pub started_at : Option String
  pub finished_at : Option String

pub record DockerState : Type 0 where
  pub container_id : String
  pub name : String
  pub service : String
  pub project : String
  pub state : String
  pub running : Bool
  pub restarting : Bool
  pub exit_code : Option ℕ
  pub restart_count : ℕ
  pub restart_policy : String
  pub health : Option String
  pub started_at : Option String
  pub finished_at : Option String

-- The container that the request names by its service.
unfoldable pub container_of_service : String → String → List Container → Option Container
container_of_service project service all =
    find (λ (c : Container). equals c.project_label project && equals c.service_label service) all

unfoldable pub docker_state : String → Option String → Inspection → String → DockerState
docker_state id service info project = record {
  container_id = or_else info.id id;
  name = without_slash (or_else info.name "");
  service = or_else service (or_else info.service_label "");
  project = project;
  state = or_else info.status "unknown";
  running = info.running;
  restarting = info.restarting;
  exit_code = info.exit_code;
  restart_count = or_else info.restart_count 0;
  restart_policy = or_else (truthy info.restart_policy) "default";
  health = elim info.health [
    | some h ↦ some h
    | none ↦ health_from_status (or_else info.status "")
  ];
  started_at = info.started_at;
  finished_at = info.finished_at;
}
