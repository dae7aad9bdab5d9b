-- ===== src/Setup/Configure.antt =====
-- setup-railway.js: the loop of `main` over the services.
use pe_hackathon.Base.{
  Bool, not, ◌&&◌, ◌||◌, Option, none, some, String, List, [], ◌∷◌, ◌==◌, if◌then◌else◌, or_else,
  is_some, keep, length, ltb, Outcome, returned, threw,
}
use pe_hackathon.Base.Store.{Store, get}
use pe_hackathon.Text.{equals, template}
use pe_hackathon.Setup.Project.{
  Trigger, ServiceNode, ServiceInstance, ServiceSpec, norm_railway_config_path,
  watch_patterns_equal, normalize_repo, is_ours, on_branch,
}
use pe_hackathon.Setup.Client.{
  Script, pure, lift, attempt, ◌>>=◌, Settings, Remote, InstanceInput, service_create,
  service_connect, trigger_create, trigger_update, instance_update, fetch_services_map,
  fetch_instance, mutate,
}

-- `process.env.X === "1" || process.env.X === "true"`
abbrev pub is_set : Store String → String → Bool
is_set env key = equals (get env key) "1" || equals (get env key) "true"

abbrev pub Services : Type 0
Services = Store ServiceNode

-- The services as they are now, and the one that is configured; `none` is undefined.
abbrev pub Found : Type 0
Found = Services × Option ServiceNode

unfoldable pub after_create : ServiceSpec → Services → Option ServiceNode → Script Found
after_create spec services none =
    lift (threw (template ("Service " ∷ spec.name ∷ " not found after create" ∷ [])))
after_create spec services (some svc) = pure (services, some svc)

-- `!needsInstanceUpdate`
abbrev pub is_nothing : InstanceInput → Bool
is_nothing i =
    not (is_some i.root_directory)
    && not (is_some i.pre_deploy_command)
    && not (is_some i.railway_config_file)
    && not (is_some i.watch_patterns)

module _ (s : Settings) (w : Remote) (spec : ServiceSpec) where
  -- A missing service is created; `none` skips the rest of the round, in a dry run.
  unfoldable pub ensure_service : Services → Script Found
  unfolding after_create
  ensure_service services = elim (get services spec.name) [
    | some svc ↦ pure (services, some svc)
    | none ↦
        if s.dry
        then pure (services, none)
        else mutate s w (service_create spec.name s.branch s.repo) >>= λ _.
            fetch_services_map s w >>= λ now. after_create spec now (get now spec.name)
  ]

  unfoldable pub update_trigger : Trigger → Script (Unit {0})
  update_trigger t = mutate s w (trigger_update t.id s.branch s.repo spec.root_directory)

  -- The loop over the triggers of the repository.
  unfoldable pub update_triggers : List Trigger → Script (Unit {0})
  update_triggers [] = pure tt
  update_triggers (t ∷ ts) =
      (if on_branch s.branch t && normalize_repo t.repository == s.repo
        then pure tt
        else if s.dry
        then pure tt
        else update_trigger t)
      >>= λ _. update_triggers ts

  unfoldable pub or_create_trigger : ServiceNode → Outcome (Unit {0}) → Script (Unit {0})
  or_create_trigger svc (returned _) = pure tt
  or_create_trigger svc (threw _) =
      mutate s w (trigger_create svc.id s.branch s.repo spec.root_directory)

  -- `serviceConnect`, and if that fails `deploymentTriggerCreate`.
  unfoldable pub connect : ServiceNode → Script (Unit {0})
  unfolding or_create_trigger
  connect svc =
      attempt (mutate s w (service_connect svc.id s.repo s.branch)) >>= λ r. or_create_trigger svc r

  -- A service with no trigger at all is connected; one with triggers for other places alone is left.
  unfoldable pub link_first : Services → ServiceNode → List Trigger → Script Found
  link_first services svc (t ∷ ts) = pure (services, some svc)
  link_first services svc [] =
      if s.dry
      then pure (services, some svc)
      else connect svc >>= λ _. fetch_services_map s w >>= λ now. pure (now, get now spec.name)

  unfoldable pub link_ours : Services → ServiceNode → List Trigger → Script Found
  link_ours services svc [] = link_first services svc svc.triggers
  link_ours services svc (t ∷ ts) = update_triggers (t ∷ ts) >>= λ _. pure (services, some svc)

  unfoldable pub link_service : Services → ServiceNode → Script Found
  unfolding link_ours link_first
  link_service services svc =
      link_ours services svc (keep (is_ours s.repo s.environment_id) svc.triggers)

  -- The second loop over the triggers.
  unfoldable pub set_branches : List Trigger → Script (Unit {0})
  set_branches [] = pure tt
  set_branches (t ∷ ts) =
      (if on_branch s.branch t then pure tt else update_trigger t) >>= λ _. set_branches ts

  unfoldable pub set_branches_of : Option ServiceNode → Script (Unit {0})
  set_branches_of none = pure tt
  set_branches_of (some svc) = set_branches (keep (is_ours s.repo s.environment_id) svc.triggers)

  -- After a change, the triggers are read again and put on the branch.
  unfoldable pub refresh_service : Found → Script Found
  unfolding set_branches_of
  refresh_service found =
      if s.dry
      then pure found
      else fetch_services_map s w >>= λ now.
          set_branches_of (get now spec.name) >>= λ _. pure (now, get now spec.name)

  -- `input`: only what differs is given.
  unfoldable pub instance_input : Option ServiceInstance → InstanceInput
  instance_input si =
      let root : Option String = elim si [ none ↦ none | some i ↦ i.root_directory ] in
      let pre : List String = elim si [ none ↦ [] | some i ↦ i.pre_deploy_command ] in
      let config : Option String = elim si [ none ↦ none | some i ↦ i.railway_config_file ] in
      let watch : Option (List String) = elim si [ none ↦ none | some i ↦ i.watch_patterns ] in
      record {
        root_directory =
            if or_else root "" == spec.root_directory then none else some spec.root_directory;
        pre_deploy_command =
            if is_set s.env "FORCE_CLEAR_PREDEPLOY" || ltb 0 (length pre) then some [] else none;
        railway_config_file =
            if norm_railway_config_path config
              == norm_railway_config_path (some spec.railway_config_file)
            then none
            else some spec.railway_config_file;
        watch_patterns =
            if watch_patterns_equal watch spec.watch_patterns
            then none
            else some spec.watch_patterns;
      }

  unfoldable pub update_instance : ServiceNode → InstanceInput → Script (Unit {0})
  update_instance svc input =
      if is_nothing input || s.dry then pure tt else mutate s w (instance_update svc.id input)

  unfoldable pub configure_instance : Option ServiceNode → Script (Unit {0})
  unfolding update_instance
  configure_instance none = lift (threw "Cannot read properties of undefined (reading 'id')")
  configure_instance (some svc) =
      fetch_instance s w svc.id >>= λ si. update_instance svc (instance_input si)

  unfoldable pub configure_found : Found → Script Services
  configure_found (services, none) = pure services
  configure_found (services, some svc) = link_service services svc >>= λ linked.
      refresh_service linked >>= λ fresh. configure_instance fresh.1 >>= λ _. pure fresh.0

  -- One round of the loop.
  unfoldable pub configure_service : Services → Script Services
  unfolding configure_found
  configure_service services = ensure_service services >>= λ found. configure_found found

module _ (s : Settings) (w : Remote) where
  unfoldable pub configure_services : List ServiceSpec → Services → Script Services
  configure_services [] services = pure services
  configure_services (spec ∷ specs) services =
      configure_service s w spec services >>= λ now. configure_services specs now
