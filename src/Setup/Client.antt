-- ===== src/Setup/Client.antt =====
-- setup-railway.js: the requests to Railway, in the order in which they are made.
use pe_hackathon.Base.{
  Bool, Option, none, some, String, List, [], ◌∷◌, ◌++◌, ℕ, Outcome, returned, threw, if◌then◌else◌,
}
use pe_hackathon.Base.Store.{Store, get}
use pe_hackathon.Text.{truthy, template, show}
use pe_hackathon.Visibility.Graphql.{is_ok_status, join}
use pe_hackathon.Setup.Project.{ServiceNode, ServiceInstance, services_map}

-- The fields of an update that are given.
pub record InstanceInput : Type 0 where
  pub root_directory : Option String
  pub pre_deploy_command : Option (List String)
  pub railway_config_file : Option String
  pub watch_patterns : Option (List String)

-- What the script does, in order: its requests, and `setup_file`, the text of `.env.railway.setup` as the
-- script leaves it. The project and the environment are those of the configuration in each request that names them.
pub data Request : Type 0 where
  query_project : Request
  query_instance : (service_id : String) → Request
  service_create : (name branch repo : String) → Request
  service_connect : (service_id repo branch : String) → Request
  trigger_create : (service_id branch repository root_directory : String) → Request
  trigger_update : (trigger_id branch repository root_directory : String) → Request
  instance_update : (service_id : String) → InstanceInput → Request
  instance_deploy : (service_id : String) → Request
  variables_upsert :
      (service_id : String) → (skip_deploys : Bool) → (variables : List (String × String)) → Request
  setup_file : (text : Option String) → Request

-- What the endpoint answers: no connection or no JSON; or a status, the body as text, the messages of
-- its errors, and its data.
pub data GqlReply {ℓ} (A : Type ℓ) : Type ℓ where
  unreached : String → GqlReply A
  got : (status : ℕ) → (body : String) → (errors : List String) → (payload : Option A) → GqlReply A

-- Railway's answer to the last request of a history.
pub record Remote : Type 0 where
  pub project : List Request → GqlReply (List (Option ServiceNode))
  pub instance_of : List Request → GqlReply (Option ServiceInstance)
  pub change : List Request → GqlReply (Unit {0})

-- The headers that a request carries.
unfoldable pub get_auth_headers : Store String → Outcome (String × String)
get_auth_headers env =
    let account : Option String = elim (truthy (get env "RAILWAY_API_TOKEN")) [
      | none ↦ truthy (get env "RAILWAY_TOKEN")
      | some t ↦ some t
    ] in
    elim account [
      | some t ↦ returned ("Authorization", template ("Bearer " ∷ t ∷ []))
      | none ↦ elim (truthy (get env "RAILWAY_PROJECT_TOKEN")) [
        | some t ↦ returned ("Project-Access-Token", t)
        | none ↦
            threw
              "Set RAILWAY_API_TOKEN (or RAILWAY_TOKEN) to an account token from https://railway.com/account/tokens"
      ]
    ]

-- An action makes requests, and returns or throws; what was asked for stays asked for.
abbrev pub Script {ℓ} : Type ℓ → Type ℓ
Script A = List Request → Outcome A × List Request

module _ {ℓ} {A : Type ℓ} where
  unfoldable pub pure : A → Script A
  pure a h = (returned a, h)

  unfoldable pub lift : Outcome A → Script A
  lift r h = (r, h)

  -- `try { return … } catch (e) { … }`
  unfoldable pub attempt : Script A → Script (Outcome A)
  attempt m h = let (r, h') = m h in (returned r, h')

  read_errors : List String → Option A → Outcome (Option A)
  read_errors [] payload = returned payload
  read_errors (e ∷ es) payload = threw (join "; " (e ∷ es))

  unfoldable pub read_gql : GqlReply A → Outcome (Option A)
  unfolding read_errors
  read_gql (unreached msg) = threw msg
  read_gql (got status body errors payload) =
      if is_ok_status status
      then read_errors errors payload
      else threw (template ("HTTP " ∷ show status ∷ ": " ∷ body ∷ []))

  unfoldable pub send :
      Outcome (String × String) → Request → (List Request → GqlReply A) → Script (Option A)
  send (threw msg) r reply h = (threw msg, h)
  send (returned _) r reply h = (read_gql (reply (h ++ r ∷ [])), h ++ r ∷ [])

  -- The request is sent only if its headers can be built.
  unfoldable pub gql : Store String → Request → (List Request → GqlReply A) → Script (Option A)
  unfolding send
  gql env r reply = send (get_auth_headers env) r reply

unfoldable pub note : Request → Script (Unit {0})
note r h = (returned tt, h ++ r ∷ [])

module _ {ℓ κ} {A : Type ℓ} {B : Type κ} where
  abbrev continue : Outcome A → (A → Script B) → Script B
  continue (returned a) f h = f a h
  continue (threw msg) f h = (threw msg, h)

  infixl 10 ◌>>=◌
  unfoldable pub ◌>>=◌ : Script A → (A → Script B) → Script B
  ◌>>=◌ m f h = let (r, h') = m h in continue r f h'

infixl 10 ◌>>◌
abbrev pub ◌>>◌ {ℓ κ} : {A : Type ℓ} {B : Type κ} → Script A → Script B → Script B
m >> k = m >>= λ _. k

-- The settings of one run, which do not change after its start.
pub record Settings : Type 0 where
  pub env : Store String
  pub project_id : String
  pub environment_id : String
  pub repo : String
  pub branch : String
  pub dry : Bool

-- Reading a field of data that is null.
abbrev pub need {ℓ} : {A : Type ℓ} → String → Option A → Outcome A
need field none = threw (template ("Cannot read properties of null (reading '" ∷ field ∷ "')" ∷ []))
need field (some a) = returned a

unfoldable pub fetch_services_map : Settings → Remote → Script (Store ServiceNode)
fetch_services_map s w = gql s.env query_project w.project >>= λ d.
    lift (need "project" d) >>= λ edges. pure (services_map [] edges)

unfoldable pub fetch_instance : Settings → Remote → String → Script (Option ServiceInstance)
fetch_instance s w service_id =
    gql s.env (query_instance service_id) w.instance_of >>= λ d. lift (need "serviceInstance" d)

unfoldable pub mutate : Settings → Remote → Request → Script (Unit {0})
mutate s w r = gql s.env r w.change >>= λ _. pure tt
