-- ===== src/Setup/Settled/Run.antt =====
-- setup-railway.js: a run over services that are as the script wants them.
use pe_hackathon.Base.{
  ◌≡◌, refl, sym, subst, ap, ◌∙◌, inl, inr, true, false, not, ◌&&◌, ◌||◌, Option, none, some,
  String, List, [], ◌∷◌, ◌==◌, arith, returned,
}
use pe_hackathon.Base.Store.{get}
use pe_hackathon.Setup.Project.{
  Trigger, ServiceNode, ServiceSpec, service_specs, normalize_repo, is_ours, on_branch,
  services_map,
}
use pe_hackathon.Setup.Client.{
  query_project, query_instance, Script, Settings, Remote, fetch_services_map, fetch_instance,
}
use pe_hackathon.Setup.Configure.{
  Services, Found, is_set, is_nothing, ensure_service, update_triggers, link_service, link_ours,
  link_first, set_branches, set_branches_of, refresh_service, instance_input, update_instance,
  configure_instance, configure_found, configure_service, configure_services,
}
use pe_hackathon.Setup.Main.{Machine, redeploy_all, run}
use pe_hackathon.Setup.Ensures.{
  Everything, Ensures, Anything, Ensures-if, Ensures-skip, Ensures-some, Ensures-gql, Ensures-bind,
  Ensures-done, Ensures-pure, Ensures-then,
}
use pe_hackathon.Setup.Rules.{Among}
use pe_hackathon.Setup.Settled.{IsQuery, Each, IsSome, IsService, HasServices, IsSettled, Each-keep}
use pe_hackathon.Setup.Ensures.{Holds-known, Given, Given-known, Ensures-need}

module _ (s : Settings) (w : Remote) (id_of : String → String) (settled : IsSettled s w id_of) where
  abbrev Asks : {A : Type 0} → (A → Type 0) → Script A → Type 0
  Asks Q m = Ensures IsQuery Q m

  fetch-HasServices : Asks (HasServices s id_of) (fetch_services_map s w)
  unfolding fetch_services_map
  fetch-HasServices =
      Ensures-bind _ _
        (Ensures-gql {Q = Given (λ edges. HasServices s id_of (services_map [] edges))}
          query_project w.project s.env tt
          (λ h. Holds-known _ _ (λ o known.
            Given-known _ o (λ edges same. settled.services h edges (known ∙ ap returned same)))))
        (λ d given.
          Ensures-bind _ _
            (Ensures-need (λ edges. HasServices s id_of (services_map [] edges)) "project" d given)
            (λ edges has. Ensures-pure _ has))

  module _ (spec : ServiceSpec) (listed : Among spec service_specs) where
    abbrev IsKnown : Found → Type 0
    IsKnown found = HasServices s id_of found.0 × IsService s id_of spec found.1

    IsService-some :
        (o : Option ServiceNode) → IsService s id_of spec o → (svc : ServiceNode) × (o ≡ some svc)
    IsService-some none h = absurd h
    IsService-some (some svc) h = (svc, refl)

    ensure_service-Asks :
        (services : Services)
        → HasServices s id_of services
        → Asks IsKnown (ensure_service s w spec services)
    unfolding ensure_service
    ensure_service-Asks services has =
        let (svc, same) = IsService-some _ (has spec listed) in
        Ensures-some (get services spec.name) _ _ svc same
          (Ensures-pure _ (has, subst (IsService s id_of spec) same (has spec listed)))

    update_triggers-Asks :
        (ts : List Trigger)
        → Each (λ t. on_branch s.branch t ≡ true) ts
        → Each (λ t. is_ours s.repo s.environment_id t ≡ true) ts
        → Asks Anything (update_triggers s w spec ts)
    unfolding update_triggers is_ours
    update_triggers-Asks [] h k = Ensures-done _
    update_triggers-Asks (t ∷ ts) (on, h) (ours, k) =
        Ensures-then _ _
          (Ensures-skip (on_branch s.branch t && normalize_repo t.repository == s.repo) _ _
            (ground arith) (Ensures-done _))
          (λ _. update_triggers-Asks ts h k)

    set_branches-Asks :
        (ts : List Trigger)
        → Each (λ t. on_branch s.branch t ≡ true) ts
        → Asks Anything (set_branches s w spec ts)
    unfolding set_branches
    set_branches-Asks [] h = Ensures-done _
    set_branches-Asks (t ∷ ts) (on, h) =
        Ensures-then _ _ (Ensures-skip (on_branch s.branch t) _ _ on (Ensures-done _))
          (λ _. set_branches-Asks ts h)

    module _ (services : Services) (svc : ServiceNode) (known : IsKnown (services, some svc)) where
      link_first-Asks :
          (ts : List Trigger) → IsSome ts → Asks IsKnown (link_first s w spec services svc ts)
      unfolding link_first
      link_first-Asks [] h = absurd h
      link_first-Asks (t ∷ ts) h = Ensures-pure _ known

      link_ours-Asks :
          (ts : List Trigger)
          → Each (λ t. on_branch s.branch t ≡ true) ts
          → Each (λ t. is_ours s.repo s.environment_id t ≡ true) ts
          → Asks IsKnown (link_ours s w spec services svc ts)
      unfolding link_ours
      link_ours-Asks [] h k = link_first-Asks svc.triggers known.1.1.0
      link_ours-Asks (t ∷ ts) h k =
          Ensures-bind _ _ (update_triggers-Asks (t ∷ ts) h k) (λ _ _. Ensures-pure _ known)

      link_service-Asks : Asks IsKnown (link_service s w spec services svc)
      unfolding link_service
      link_service-Asks = link_ours-Asks _ known.1.1.1 (Each-keep _ svc.triggers)

    set_branches_of-Asks :
        (o : Option ServiceNode)
        → IsService s id_of spec o
        → Asks Anything (set_branches_of s w spec o)
    unfolding set_branches_of
    set_branches_of-Asks none known = absurd known
    set_branches_of-Asks (some svc) known = set_branches-Asks _ known.1.1

    refresh_service-Asks :
        (found : Found) → IsKnown found → Asks IsKnown (refresh_service s w spec found)
    unfolding refresh_service
    refresh_service-Asks found known =
        Ensures-if s.dry _ _ (λ _. Ensures-pure found known)
          (λ live. Ensures-bind _ _ fetch-HasServices (λ now has.
            Ensures-bind _ _ (set_branches_of-Asks _ (has spec listed))
              (λ _ _. Ensures-pure (now, get now spec.name) (has, has spec listed))))

    fetch_instance-Asks :
        Asks
          (λ si. is_nothing (instance_input s w spec si) ≡ true)
          (fetch_instance s w (id_of spec.name))
    unfolding fetch_instance
    fetch_instance-Asks =
        Ensures-bind _ _
          (Ensures-gql {Q = Given (λ si. is_nothing (instance_input s w spec si) ≡ true)}
            (query_instance (id_of spec.name)) w.instance_of s.env tt
            (λ h. Holds-known _ _ (λ o known.
              Given-known _ o
                (λ si same. settled.instances h spec si listed (known ∙ ap returned same)))))
          (λ d given. Ensures-need _ "serviceInstance" d given)

    configure_instance-Asks :
        (o : Option ServiceNode)
        → IsService s id_of spec o
        → Asks Anything (configure_instance s w spec o)
    unfolding configure_instance update_instance
    configure_instance-Asks none known = absurd known
    configure_instance-Asks (some svc) known =
        Ensures-bind _ _
          (subst
            (λ id.
              Asks (λ si. is_nothing (instance_input s w spec si) ≡ true) (fetch_instance s w id))
            (sym known.0) fetch_instance-Asks)
          (λ si nothing.
            Ensures-skip (is_nothing (instance_input s w spec si) || s.dry) _ _ (ground arith)
              (Ensures-done _))

    configure_found-Asks :
        (services : Services) (o : Option ServiceNode)
        → IsKnown (services, o)
        → Asks (HasServices s id_of) (configure_found s w spec (services, o))
    unfolding configure_found
    configure_found-Asks services none known = absurd known.1
    configure_found-Asks services (some svc) known =
        Ensures-bind _ _ (link_service-Asks services svc known) (λ linked was.
          Ensures-bind _ _ (refresh_service-Asks linked was) (λ fresh now.
            Ensures-bind _ _ (configure_instance-Asks fresh.1 now.1)
              (λ _ _. Ensures-pure fresh.0 now.0)))

    configure_service-Asks :
        (services : Services)
        → HasServices s id_of services
        → Asks (HasServices s id_of) (configure_service s w spec services)
    unfolding configure_service
    configure_service-Asks services has =
        Ensures-bind _ _ (ensure_service-Asks services has)
          (λ found known. configure_found-Asks found.0 found.1 known)

  configure_services-Asks :
      (specs : List ServiceSpec) (services : Services)
      → ((spec : ServiceSpec) → Among spec specs → Among spec service_specs)
      → HasServices s id_of services
      → Asks (HasServices s id_of) (configure_services s w specs services)
  unfolding configure_services
  configure_services-Asks [] services listed has = Ensures-pure services has
  configure_services-Asks (spec ∷ specs) services listed has =
      Ensures-bind _ _ (configure_service-Asks spec (listed spec (inl refl)) services has)
        (λ now has. configure_services-Asks specs now (λ other h. listed other (inr h)) has)

  -- Over settled services, whatever Railway answers to anything else and in a dry run or not, a run
  -- that neither deploys (SKIP_REDEPLOY) nor sets variables asks queries alone: nothing is changed.
  pub run-IsQuery :
      (m : Machine)
      → is_set s.env "SKIP_REDEPLOY" ≡ true
      → is_set s.env "SYNC_VARIABLES" ≡ false
      → Everything IsQuery (run s w m []).1
  unfolding run redeploy_all
  run-IsQuery m skip sync =
      ((Ensures-bind _ _ fetch-HasServices (λ services has.
          Ensures-bind _ _
            (configure_services-Asks service_specs services (λ spec listed. listed) has)
            (λ _ _.
              Ensures-then _ _
                (Ensures-if (not s.dry && not (is_set s.env "SKIP_REDEPLOY")) _ _
                  (λ h. absurd (ground arith)) (λ _. Ensures-done _))
                (λ _.
                  Ensures-if (is_set s.env "SYNC_VARIABLES") _ _ (λ h. absurd (ground arith))
                    (λ _. Ensures-done _))))).at
        [] tt).0
