-- ===== src/Chaos/Guards.antt =====
-- chaos/kill/route.ts and chaos/restart/route.ts: the checks that both routes make, with the
-- messages that differ as arguments.
use pe_hackathon.Base.{
  ℕ, Bool, true, false, not, ◌&&◌, Option, none, some, String, [], ◌∷◌, ◌==◌, or_else, is_some, ◌≡◌,
  ◌⊎◌, refl, inl, inr,
}
use pe_hackathon.Text.{is_empty, truthy, trim, to_lower, template}
use pe_hackathon.Env.{Env, has_railway_graphql_credential}
use pe_hackathon.Policy.{chaos_kill_enabled, is_service_kill_allowed}
use pe_hackathon.Visibility.Halt.{Mutation}
use pe_hackathon.Visibility.Rows.{
  RailwayVisibilityRow, VisibilityRows, get_railway_chaos_row_for_service,
}

-- A JSON object with three optional texts.
pub record ChaosBody : Type 0 where
  pub container_id : Option String
  pub railway_service_id : Option String
  pub confirm_service : Option String

-- The labels of a container.
pub record ContainerInfo : Type 0 where
  pub service_label : Option String
  pub project_label : Option String

-- What a route does to the world.
pub data Effect : Type 0 where
  railway_mutation : Mutation → Effect
  container_kill : String → Effect
  container_restart : (id : String) → (grace_s : ℕ) → Effect

-- A check that fails answers with a status and an error.
pub data Checked {ℓ} (A : Type ℓ) : Type ℓ where
  refuse : ℕ → String → Checked A
  accept : A → Checked A

infixl 5 ◌>>=◌ ◌>>◌
abbrev pub ◌>>=◌ {ℓ κ} : {A : Type ℓ} {B : Type κ} → Checked A → (A → Checked B) → Checked B
refuse status error >>= f = refuse status error
accept a >>= f = f a

abbrev pub ◌>>◌ {ℓ} : {B : Type ℓ} → Checked (Unit {0}) → Checked B → Checked B
m >> k = m >>= λ _. k

abbrev pub require : Bool → ℕ → String → Checked (Unit {0})
require true status error = accept tt
require false status error = refuse status error

abbrev pub present {ℓ} : {A : Type ℓ} → Option A → ℕ → String → Checked A
present none status error = refuse status error
present (some a) status error = accept a

-- The checks before the two branches; the result is the body and the confirmed name.
unfoldable pub checked_body :
    Env → Option String → String → Option ChaosBody → Checked (ChaosBody × String)
checked_body env node_env disabled body = do
  require (chaos_kill_enabled env node_env) 403 disabled
  b ←
      present body 400
        "JSON body required with confirmService and either containerId (Docker) or railwayServiceId (Railway)"
  let confirm = to_lower (trim (or_else b.confirm_service ""))
  require (not (is_empty confirm)) 400 "confirmService is required"
  accept (b, confirm)

-- `(body.railwayServiceId ?? "").trim()`
abbrev pub service_id_of : ChaosBody → String
service_id_of b = trim (or_else b.railway_service_id "")

abbrev pub container_id_of : ChaosBody → String
container_id_of b = trim (or_else b.container_id "")

-- The checks on the credentials, made before the table is fetched.
unfoldable pub checked_credentials : Env → Checked (Unit {0})
checked_credentials env = do
  require (has_railway_graphql_credential env) 503
      "Railway API token missing — set RAILWAY_PROJECT_TOKEN or RAILWAY_API_TOKEN on the dashboard service."
  require
      (is_some (truthy (env "RAILWAY_PROJECT_ID"))
        && is_some (truthy (env "RAILWAY_ENVIRONMENT_ID")))
      503
      "RAILWAY_PROJECT_ID and RAILWAY_ENVIRONMENT_ID must be set on the dashboard service (e.g. via setup-railway variable sync)."

abbrev pub not_allowed : String → String → String
not_allowed service tail = template ("Service \"" ∷ service ∷ "\" is not allowed" ∷ tail ∷ [])

-- The row and its deployment.
unfoldable pub checked_row :
    Env
    → String
    → String
    → VisibilityRows
    → String
    → String
    → Checked (RailwayVisibilityRow × String)
checked_row env tail undeployed rows sid confirm = do
  row ←
      present (get_railway_chaos_row_for_service rows sid) 404
        "Service not found or Railway visibility query failed — refresh the table and try again."
  require (to_lower (trim row.service) == confirm) 400
      "confirmService does not match this Railway service name."
  require (is_service_kill_allowed env row.service) 403 (not_allowed row.service tail)
  dep ← present (truthy row.railway_deployment_id) 400 undeployed
  accept (row, dep)

-- `runtimeEnv("VISIBILITY_COMPOSE_PROJECT") || "pe-hackathon-2026"`
unfoldable pub compose_project : Env → String
compose_project env = or_else (truthy (env "VISIBILITY_COMPOSE_PROJECT")) "pe-hackathon-2026"

-- The service of the container that the body names.
unfoldable pub checked_container : Env → String → ContainerInfo → String → Checked String
checked_container env tail info confirm = do
  let svc = or_else info.service_label ""
  let proj = or_else info.project_label ""
  require (not (is_empty proj) && proj == compose_project env) 403
      "Container is not part of the configured Compose project (check VISIBILITY_COMPOSE_PROJECT)."
  require (to_lower svc == confirm) 400
      "confirmService does not match this container's Compose service name."
  require (is_service_kill_allowed env svc) 403 (not_allowed svc tail)
  accept svc

pub Checked-cases {ℓ} :
    {A : Type ℓ} (c : Checked A)
    → ((status : ℕ) × (error : String) × (c ≡ refuse status error)) ⊎ ((a : A) × (c ≡ accept a))
Checked-cases (refuse status error) = inl (status, error, refl)
Checked-cases (accept a) = inr (a, refl)
