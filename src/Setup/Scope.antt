-- ===== src/Setup/Scope.antt =====
-- setup-railway.js: what the script may ask for.
use pe_hackathon.Base.{◌≡◌, refl, ◌⊎◌, true, false, Option, none, some, String, [], arith, returned}
use pe_hackathon.Setup.EnvFile.{load_optional_env_file}
use pe_hackathon.Setup.Project.{ServiceNode, ServiceInstance, ServiceSpec, service_specs}
use pe_hackathon.Setup.Client.{
  Request, query_project, query_instance, service_create, service_connect, trigger_create,
  trigger_update, instance_update, instance_deploy, variables_upsert, setup_file, InstanceInput,
  Settings, Remote,
}
use pe_hackathon.Setup.Configure.{is_set, instance_input}
use pe_hackathon.Setup.Main.{Machine, read_config, settings_of, main}
use pe_hackathon.Setup.Ensures.{Everything}
use pe_hackathon.Setup.Rules.{Among, If, Rules}
use pe_hackathon.Setup.Rules.Main.{main-Everything}

-- A field of an update is left out, or is as it should be.
abbrev pub IsField : {A : Type 0} → Option A → A → Type 0
IsField o a = (o ≡ none) ⊎ (o ≡ some a)

-- An update brings a service to its specification, and clears the commands before a deployment at most.
pub record Fits (spec : ServiceSpec) (i : InstanceInput) : Type 0 where
  pub root : IsField i.root_directory spec.root_directory
  pub commands : IsField i.pre_deploy_command []
  pub config : IsField i.railway_config_file spec.railway_config_file
  pub watch : IsField i.watch_patterns spec.watch_patterns

-- What a run with these settings may ask for.
abbrev pub IsAllowed : Settings → Request → Type 0
IsAllowed s query_project = Unit {0}
IsAllowed s (query_instance _) = Unit {0}
IsAllowed s (service_create name branch repo) =
    (s.dry ≡ false)
    × (branch ≡ s.branch)
    × (repo ≡ s.repo)
    × ((spec : ServiceSpec) × Among spec service_specs × (name ≡ spec.name))
IsAllowed s (service_connect _ repo branch) =
    (s.dry ≡ false) × (branch ≡ s.branch) × (repo ≡ s.repo)
IsAllowed s (trigger_create _ branch repo root) =
    (s.dry ≡ false)
    × (branch ≡ s.branch)
    × (repo ≡ s.repo)
    × ((spec : ServiceSpec) × Among spec service_specs × (root ≡ spec.root_directory))
IsAllowed s (trigger_update _ branch repo root) =
    (s.dry ≡ false)
    × (branch ≡ s.branch)
    × (repo ≡ s.repo)
    × ((spec : ServiceSpec) × Among spec service_specs × (root ≡ spec.root_directory))
IsAllowed s (instance_update _ input) =
    (s.dry ≡ false) × ((spec : ServiceSpec) × Among spec service_specs × Fits spec input)
IsAllowed s (instance_deploy _) = (s.dry ≡ false) × (is_set s.env "SKIP_REDEPLOY" ≡ false)
IsAllowed s (variables_upsert _ _ _) = (s.dry ≡ false) × (is_set s.env "SYNC_VARIABLES" ≡ true)
IsAllowed s (setup_file _) = (s.dry ≡ false) × (is_set s.env "SYNC_VARIABLES" ≡ true)

instance_input-Fits :
    (s : Settings) (w : Remote) (spec : ServiceSpec) (si : Option ServiceInstance)
    → Fits spec (instance_input s w spec si)
unfolding instance_input
instance_input-Fits s w spec si = ground arith

If-Unit : (o : Option ServiceNode) → If (λ svc. Unit {0}) o
If-Unit none = tt
If-Unit (some svc) = tt

rules-IsAllowed : (s : Settings) (w : Remote) → Rules s w (IsAllowed s) (λ svc. Unit {0})
rules-IsAllowed s w = record {
  project = tt;
  instances = λ id. tt;
  known = λ h edges same name. If-Unit _;
  create = λ spec live listed. (live, refl, refl, (spec, listed, refl));
  connects = λ id live. (live, refl, refl);
  creates_trigger = λ id spec live listed. (live, refl, refl, (spec, listed, refl));
  updates_trigger = λ svc t spec live good ours listed. (live, refl, refl, (spec, listed, refl));
  updates_instance =
      λ id spec si live listed. (live, (spec, listed, instance_input-Fits s w spec si));
  deploys = λ id live go. (live, go);
  upserts = λ id skip variables live synced. (live, synced);
  saves = λ text live synced. (live, synced);
}

-- If the environment with its optional file, and the configuration file, give the settings `s`, then all
-- that the script asks for and writes is allowed by `s`: a change is made only outside a dry run, to the branch and
-- the repository of `s`, with a name, a root directory and instance fields of one of the seven listed
-- services; a deployment only without SKIP_REDEPLOY, variables and the token's file only with SYNC_VARIABLES.
pub main-IsAllowed :
    (w : Remote) (m : Machine) (ids : String × String)
    → read_config m ≡ returned ids
    → Everything
        (IsAllowed (settings_of (load_optional_env_file m.env m.files.setup) ids))
        (main w m []).1
main-IsAllowed w m ids known =
    main-Everything w m ids _ _ known
      (rules-IsAllowed (settings_of (load_optional_env_file m.env m.files.setup) ids) w)
