-- ===== src/Visibility/Rows.antt =====
-- railway-visibility.ts: a row for each service of the project.
use pe_hackathon.Base.{
  ℕ, ◌+◌, ◌/◌, Bool, true, false, ◌&&◌, Option, none, some, String, List, [], ◌∷◌, ◌==◌,
  if◌then◌else◌, or_else, is_some, find, returned, threw,
}
use pe_hackathon.Base.Store.{Store, get, put}
use pe_hackathon.Text.{is_empty, truthy, template, show}
use pe_hackathon.Env.{Env, has_railway_graphql_credential}
use pe_hackathon.Visibility.Status.{
  RailwayOnlineStatus, deployment_status_to_state, deployment_status_to_railway_ui,
}
use pe_hackathon.Visibility.Graphql.{Reply, railway_graphql}

-- The metrics of a row (`includeStats`) are not part of it here.
pub record RailwayVisibilityRow : Type 0 where
  pub id : String
  pub name : String
  pub image : String
  pub state : String
  pub status : String
  pub deployment_status : Option String
  pub railway_online_status : RailwayOnlineStatus
  pub service : String
  pub health : Option String
  pub created : ℕ
  pub railway_service_id : String
  pub railway_deployment_id : Option String
  pub railway_public_url : Option String

pub record Service : Type 0 where
  pub id : String
  pub name : String

-- `edges` holds the nodes, some of which may be null.
pub record Project : Type 0 where
  pub name : String
  pub edges : List (Option Service)

-- `created_ms` is the instant that `createdAt` names.
pub record Deployment : Type 0 where
  pub id : String
  pub status : Option String
  pub created_ms : Option ℕ
  pub url : Option String
  pub static_url : Option String

-- One connection for each alias; a missing one and `null` read alike.
abbrev pub DeploymentsBatch : Type 0
DeploymentsBatch = Store (List Deployment)

pub record VisibilityRows : Type 0 where
  pub project : Option String
  pub project_id : Option String
  pub containers : List RailwayVisibilityRow
  pub error : Option String

-- `.filter(Boolean)`
services_of : List (Option Service) → List Service
services_of [] = []
services_of (none ∷ es) = services_of es
services_of (some s ∷ es) = s ∷ services_of es

-- `dep.staticUrl || dep.url || undefined`
abbrev pub public_url_of : Deployment → Option String
public_url_of dep = elim (truthy dep.static_url) [ none ↦ truthy dep.url | some u ↦ some u ]

abbrev with_url : String → Option String → String
with_url status none = status
with_url status (some u) = template (status ∷ " · " ∷ u ∷ [])

abbrev seconds : Option ℕ → ℕ
seconds none = 0
seconds (some ms) = ms / 1000

-- `new Map(services.map((s) => [s.id, s.name]))`
names_by_id : Store String → List Service → Store String
names_by_id m [] = m
names_by_id m (s ∷ ss) = names_by_id (put m s.id s.name) ss

unfoldable pub row_without_deployment : String → Option String → RailwayVisibilityRow
row_without_deployment sid name = record {
  id = template ("service:" ∷ sid ∷ []);
  name = or_else (truthy name) sid;
  image = "Railway";
  state = "exited";
  status = "No active deployment";
  deployment_status = none;
  railway_online_status = deployment_status_to_railway_ui none false;
  service = or_else name "";
  health = none;
  created = 0;
  railway_service_id = sid;
  railway_deployment_id = none;
  railway_public_url = none;
}

unfoldable pub row_of_deployment : String → Option String → Deployment → RailwayVisibilityRow
row_of_deployment sid name dep =
    let status = or_else dep.status "UNKNOWN" in
    record {
      id = dep.id;
      name = or_else (truthy name) sid;
      image = "Railway";
      state = (deployment_status_to_state status).0;
      status = with_url status (public_url_of dep);
      deployment_status = some status;
      railway_online_status = deployment_status_to_railway_ui (some status) true;
      service = or_else name "";
      health = (deployment_status_to_state status).1;
      created = seconds dep.created_ms;
      railway_service_id = sid;
      railway_deployment_id = some dep.id;
      railway_public_url = public_url_of dep;
    }

-- `batch[key]?.edges?.[0]?.node`
first_deployment : Option (List Deployment) → Option Deployment
first_deployment none = none
first_deployment (some []) = none
first_deployment (some (d ∷ ds)) = some d

-- The alias of the i-th service in the batched query.
abbrev pub alias_key : ℕ → String
alias_key i = template ("d" ∷ show i ∷ [])

row_for : String → Option String → Option Deployment → RailwayVisibilityRow
row_for sid name none = row_without_deployment sid name
row_for sid name (some dep) = row_of_deployment sid name dep

unfoldable pub rows_from :
    Store String → DeploymentsBatch → ℕ → List Service → List RailwayVisibilityRow
unfolding row_for first_deployment row_without_deployment row_of_deployment
rows_from names batch i [] = []
rows_from names batch i (s ∷ ss) =
    row_for s.id (get names s.id) (first_deployment (get batch (alias_key i)))
    ∷ rows_from names batch (i + 1) ss

no_rows : Option String → Option String → Option String → VisibilityRows
no_rows project project_id error = record {
  project = project;
  project_id = project_id;
  containers = [];
  error = error;
}

-- The part after the list of services is known.
unfoldable pub rows_of_services :
    Env → Option String → Option String → List Service → Reply DeploymentsBatch → VisibilityRows
unfolding no_rows names_by_id
rows_of_services env project project_id [] reply = no_rows project project_id none
rows_of_services env project project_id (s ∷ ss) reply = elim (railway_graphql env reply) [
  | threw msg ↦ no_rows project project_id (some msg)
  | returned batch ↦ record {
    project = project;
    project_id = project_id;
    containers = rows_from (names_by_id [] (s ∷ ss)) batch 0 (s ∷ ss);
    error = none;
  }
]

-- Without `includeStats`; the arguments are the answers to the two queries.
unfoldable pub fetch_railway_visibility_rows :
    Env → Reply (Option Project) → Reply DeploymentsBatch → VisibilityRows
unfolding no_rows services_of
fetch_railway_visibility_rows env project_reply batch_reply =
    let project_id = env "RAILWAY_PROJECT_ID" in
    elim (railway_graphql env project_reply) [
      | threw msg ↦ no_rows project_id project_id (some msg)
      | returned none ↦
          no_rows project_id project_id
            (some "Railway project not found (check RAILWAY_PROJECT_ID)")
      | returned (some project) ↦
          rows_of_services env (if is_empty project.name then project_id else some project.name)
            project_id (services_of project.edges) batch_reply
    ]

unfoldable pub railway_ids_configured : Env → Bool
railway_ids_configured env =
    is_some (truthy (env "RAILWAY_PROJECT_ID")) && is_some (truthy (env "RAILWAY_ENVIRONMENT_ID"))

unfoldable pub railway_visibility_configured : Env → Bool
railway_visibility_configured env = railway_ids_configured env && has_railway_graphql_credential env

abbrev has_id : String → RailwayVisibilityRow → Bool
has_id sid row = row.railway_service_id == sid

unfoldable pub get_railway_chaos_row_for_service :
    VisibilityRows → String → Option RailwayVisibilityRow
get_railway_chaos_row_for_service r sid =
    if is_some (truthy r.error) then none else find (has_id sid) r.containers
