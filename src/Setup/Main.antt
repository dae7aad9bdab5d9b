-- ===== src/Setup/Main.antt =====
-- setup-railway.js: `main`, and the upserts of the variables.
use pe_hackathon.Base.{
  Bool, true, not, ◌&&◌, Option, none, some, String, List, [], ◌∷◌, ◌==◌, map, if◌then◌else◌,
  or_else, Outcome, returned, threw,
}
use pe_hackathon.Base.Store.{Store, get}
use pe_hackathon.Text.{truthy, trim, template}
use pe_hackathon.Setup.EnvFile.{load_optional_env_file}
use pe_hackathon.Setup.Project.{ServiceSpec, service_specs, normalize_repo}
use pe_hackathon.Setup.Client.{
  Script, pure, lift, note, setup_file, attempt, ◌>>=◌, Settings, Remote, instance_deploy,
  variables_upsert, get_auth_headers, fetch_services_map, mutate,
}
use pe_hackathon.Setup.Configure.{Services, is_set, configure_services}
use pe_hackathon.Setup.Plugins.{Value, render, service_names}
use pe_hackathon.Setup.Wiring.{Variables, Wiring, find_wiring}
use pe_hackathon.Setup.Variables.{Plan, sync_plan}
use pe_hackathon.Setup.IngestToken.{Files, ensure_log_ingest_token}

-- What the script reads that is not Railway: the environment, its files, the two ids of
-- `.railway/config.json`, and random bytes as text.
pub record Machine : Type 0 where
  pub env : Store String
  pub files : Files
  pub config_path : String
  pub config : Outcome (Option String × Option String)
  pub random : String

abbrev rendered : String × Value → String × String
rendered (key, value) = (key, render value)

abbrev is_unset : Store String → String → Bool
is_unset env key = elim (get env key) [
  | none ↦ true
  | some v ↦ not (v == "0") && not (v == "false")
]

module _ (s : Settings) (w : Remote) where
  -- A service that is not there is skipped; a dry run asks for nothing.
  unfoldable pub upsert : Services → String → Variables → Script (Unit {0})
  upsert services name variables = elim (get services name) [
    | none ↦ pure tt
    | some svc ↦
        if s.dry
        then pure tt
        else mutate s w (
            variables_upsert svc.id (is_unset s.env "SKIP_DEPLOY_ON_VARIABLE_SYNC")
              (map rendered variables))
  ]

  unfoldable pub upsert_all : Services → Plan → Script (Unit {0})
  upsert_all services [] = pure tt
  upsert_all services ((name, variables) ∷ plan) =
      upsert services name variables >>= λ _. upsert_all services plan

  -- A deployment that fails is reported, and the next service is deployed.
  unfoldable pub redeploy : Services → List ServiceSpec → Script (Unit {0})
  redeploy services [] = pure tt
  redeploy services (spec ∷ specs) = elim (get services spec.name) [
    | none ↦ redeploy services specs
    | some svc ↦ attempt (mutate s w (instance_deploy svc.id)) >>= λ _. redeploy services specs
  ]

  unfoldable pub redeploy_now : Script (Unit {0})
  redeploy_now = fetch_services_map s w >>= λ services. redeploy services service_specs

  unfoldable pub redeploy_all : Script (Unit {0})
  redeploy_all = if not s.dry && not (is_set s.env "SKIP_REDEPLOY") then redeploy_now else pure tt

-- The environment and the files after the token is ensured, and the wiring that reads that
-- environment. A dry run makes no token.
unfoldable pub sync_wiring :
    Settings → Machine → List String → Option (Store String × Files × Wiring)
sync_wiring s m names = elim (find_wiring s.env names s.project_id s.environment_id) [
  | none ↦ none
  | some wiring ↦
      let (env, files) =
        if s.dry
        then (s.env, m.files)
        else ensure_log_ingest_token names wiring.kafka s.env m.files m.random in
      some (env, files, record wiring { env = env })
]

-- What `ensureLogIngestTokenForHttpIngest` leaves in the file; a dry run does not call it.
unfoldable pub save_file : Bool → Files → Script (Unit {0})
save_file dry files = if dry then pure tt else note (setup_file files.setup)

unfoldable pub sync_variables : Settings → Remote → Machine → Script (Unit {0})
unfolding save_file
sync_variables s w m = fetch_services_map s w >>= λ services.
    elim (sync_wiring s m (service_names services)) [
      | none ↦ pure tt
      | some (env, files, wiring) ↦ save_file s.dry files >>= λ _.
          upsert_all (record s { env = env }) w services (sync_plan wiring)
    ]

unfoldable pub read_config : Machine → Outcome (String × String)
read_config m = elim m.config [
  | threw msg ↦ threw msg
  | returned (project, environment) ↦ elim (truthy project) [
    | none ↦ threw (template (m.config_path ∷ " must include projectId and environmentId" ∷ []))
    | some project_id ↦ elim (truthy environment) [
      | none ↦ threw (template (m.config_path ∷ " must include projectId and environmentId" ∷ []))
      | some environment_id ↦ returned (project_id, environment_id)
    ]
  ]
]

unfoldable pub settings_of : Store String → String × String → Settings
settings_of env (project_id, environment_id) = record {
  env = env;
  project_id = project_id;
  environment_id = environment_id;
  repo =
      normalize_repo
        (some (or_else (truthy (get env "RAILWAY_REPO")) "nathan-nw/PE-Hackathon-2026"));
  branch = trim (or_else (truthy (get env "RAILWAY_BRANCH")) "staging");
  dry = is_set env "DRY_RUN";
}

-- After the settings are read.
unfoldable pub run : Settings → Remote → Machine → Script (Unit {0})
run s w m = fetch_services_map s w >>= λ services.
    configure_services s w service_specs services >>= λ _. redeploy_all s w >>= λ _.
    if is_set s.env "SYNC_VARIABLES" then sync_variables s w m else pure tt

unfoldable pub start :
    Store String → Remote → Machine → Outcome (String × String) → Script (Unit {0})
start env w m (threw msg) = lift (threw msg)
start env w m (returned _) = lift (read_config m) >>= λ ids. run (settings_of env ids) w m

-- The whole script: a missing token stops it before anything else.
unfoldable pub main : Remote → Machine → Script (Unit {0})
unfolding start
main w m =
    let env = load_optional_env_file m.env m.files.setup in start env w m (get_auth_headers env)
