-- ===== src/Setup/Converges.antt =====
-- setup-railway.js: an update of a service instance, made once, is not made again.
use pe_hackathon.Base.{
  ◌≡◌, not, ◌||◌, Option, none, some, String, List, [], arith, eq_refl, or_else, ltb, length,
}
use pe_hackathon.Setup.Project.{ServiceInstance, ServiceSpec, norm_railway_config_path}
use pe_hackathon.Setup.Client.{Settings, Remote, InstanceInput}
use pe_hackathon.Setup.Configure.{is_set, is_nothing, instance_input}
use pe_hackathon.Setup.Patterns.{watch_patterns_equal_refl}

-- An instance that Railway does not know has no fields.
abbrev pub no_instance : ServiceInstance
no_instance = record {
  root_directory = none;
  pre_deploy_command = [];
  railway_config_file = none;
  watch_patterns = none;
}

-- What Railway documents of `serviceInstanceUpdate` on three fields: a field that is given replaces the
-- instance's, and one that is left out stays. Nothing is assumed about the pre-deploy commands.
pub record UpdatesFields (update : ServiceInstance → InstanceInput → ServiceInstance) : Type 0 where
  pub given_root :
      (si : ServiceInstance) (i : InstanceInput) (v : String)
      → i.root_directory ≡ some v
      → or_else (update si i).root_directory "" ≡ v
  pub left_root :
      (si : ServiceInstance) (i : InstanceInput)
      → i.root_directory ≡ none
      → (update si i).root_directory ≡ si.root_directory
  pub given_config :
      (si : ServiceInstance) (i : InstanceInput) (v : String)
      → i.railway_config_file ≡ some v
      → (update si i).railway_config_file ≡ some v
  pub left_config :
      (si : ServiceInstance) (i : InstanceInput)
      → i.railway_config_file ≡ none
      → (update si i).railway_config_file ≡ si.railway_config_file
  pub given_watch :
      (si : ServiceInstance) (i : InstanceInput) (v : List String)
      → i.watch_patterns ≡ some v
      → (update si i).watch_patterns ≡ some v
  pub left_watch :
      (si : ServiceInstance) (i : InstanceInput)
      → i.watch_patterns ≡ none
      → (update si i).watch_patterns ≡ si.watch_patterns

module _ (s : Settings) (w : Remote) (spec : ServiceSpec)
    (update : ServiceInstance → InstanceInput → ServiceInstance) (laws : UpdatesFields update) where
  converges :
      (si : ServiceInstance)
      → let i = instance_input s w spec (some si) in
        let next = instance_input s w spec (some (update si i)) in
        (next.root_directory ≡ none)
        × (next.railway_config_file ≡ none)
        × (next.watch_patterns ≡ none)
  unfolding instance_input
  converges si =
      let i = instance_input s w spec (some si) in
      ground (
        arith,
        laws.given_root si i spec.root_directory,
        laws.left_root si i,
        laws.given_config si i spec.railway_config_file,
        laws.left_config si i,
        laws.given_watch si i spec.watch_patterns,
        laws.left_watch si i,
        watch_patterns_equal_refl spec.watch_patterns,
        eq_refl spec.root_directory,
        eq_refl (norm_railway_config_path (some spec.railway_config_file)),
      )

  -- Whatever an instance is like, or if there is none: if Railway applies the update of the first run to
  -- the root directory, the configuration file and the watch patterns as it documents, then the next run
  -- gives none of these three fields. It has nothing to update unless FORCE_CLEAR_PREDEPLOY asks for it
  -- each time, or Railway kept pre-deploy commands or has new ones.
  pub instance_input_converges :
      (si : Option ServiceInstance)
      → let after = update (or_else si no_instance) (instance_input s w spec si) in
        let next = instance_input s w spec (some after) in
        (next.root_directory ≡ none)
        × (next.railway_config_file ≡ none)
        × (next.watch_patterns ≡ none)
        × (is_nothing next
            ≡ not (is_set s.env "FORCE_CLEAR_PREDEPLOY" || ltb 0 (length after.pre_deploy_command)))
  unfolding instance_input
  instance_input_converges none =
      let (root, config, watch) = converges no_instance in
      (root, config, watch, ground (arith, root, config, watch))
  instance_input_converges (some si) =
      let (root, config, watch) = converges si in
      (root, config, watch, ground (arith, root, config, watch))
