-- ===== src/Setup/Rules/Run.antt =====
-- setup-railway.js: the loop over the services, under the rules of the requests.
use pe_hackathon.Base.{◌≡◌, refl, inl, inr, false, ◌||◌, Option, none, some, List, [], ◌∷◌}
use pe_hackathon.Base.Store.{get}
use pe_hackathon.Setup.Project.{ServiceNode, ServiceInstance, ServiceSpec, service_specs}
use pe_hackathon.Setup.Client.{Request, instance_update, Settings, Remote, fetch_instance}
use pe_hackathon.Setup.Configure.{
  Services, Found, is_nothing, set_branches_of, refresh_service, instance_input, update_instance,
  configure_instance, configure_found, configure_service, configure_services,
}
use pe_hackathon.Setup.Ensures.{
  Anything, Ensures, Ensures-if, Ensures-mutate, Ensures-bind, Ensures-then, Ensures-done,
  Ensures-outcome, Ensures-query, Ensures-pure,
}
use pe_hackathon.Setup.Rules.{
  Among, If, All, Rules, or-right, fetch-All, IsKnown, ensure_service-IsKnown, set_branches-Ensures,
  link_service-IsKnown,
}

module _ (s : Settings) (w : Remote) (P : Request → Type 0) (Good : ServiceNode → Type 0)
    (rules : Rules s w P Good) where
  module _ (spec : ServiceSpec) (listed : Among spec service_specs) where
    abbrev Knows : Found → Type 0
    Knows = IsKnown s w P Good rules spec listed

    set_branches_of-Ensures :
        (o : Option ServiceNode)
        → If Good o
        → s.dry ≡ false
        → Ensures P Anything (set_branches_of s w spec o)
    unfolding set_branches_of
    set_branches_of-Ensures none is live = Ensures-done _
    set_branches_of-Ensures (some svc) is live =
        set_branches-Ensures s w P Good rules spec listed svc is _ (λ t h. h) live

    refresh_service-IsKnown :
        (found : Found) → Knows found → Ensures P Knows (refresh_service s w spec found)
    unfolding refresh_service
    refresh_service-IsKnown found known =
        Ensures-if s.dry _ _ (λ _. Ensures-pure found known)
          (λ live. Ensures-bind _ _ (fetch-All s w P Good rules) (λ now has.
            Ensures-bind _ _ (set_branches_of-Ensures _ (has spec.name) live)
              (λ _ _. Ensures-pure (now, get now spec.name) (has, has spec.name))))

    update_instance-Ensures :
        (svc : ServiceNode) (si : Option ServiceInstance)
        → Ensures P Anything (update_instance s w spec svc (instance_input s w spec si))
    unfolding update_instance
    update_instance-Ensures svc si =
        let input = instance_input s w spec si in
        Ensures-if (is_nothing input || s.dry) _ _ (λ _. Ensures-done _)
          (λ needed. Ensures-mutate s w (instance_update svc.id input) (
            rules.updates_instance svc.id spec si (or-right (is_nothing input) s.dry needed)
              listed))

    configure_instance-Ensures :
        (o : Option ServiceNode) → Ensures P Anything (configure_instance s w spec o)
    unfolding configure_instance fetch_instance
    configure_instance-Ensures none = Ensures-outcome _
    configure_instance-Ensures (some svc) =
        Ensures-then _ _
          (Ensures-then _ _ (Ensures-query s.env _ w.instance_of (rules.instances svc.id))
            (λ d. Ensures-outcome _))
          (λ si. update_instance-Ensures svc si)

    configure_found-Ensures :
        (services : Services) (o : Option ServiceNode)
        → Knows (services, o)
        → Ensures P (All Good) (configure_found s w spec (services, o))
    unfolding configure_found
    configure_found-Ensures services none known = Ensures-pure services known.0
    configure_found-Ensures services (some svc) known =
        Ensures-bind _ _
          (link_service-IsKnown s w P Good rules spec listed svc known.1 services known.0)
          (λ linked was. Ensures-bind _ _ (refresh_service-IsKnown linked was) (λ fresh now.
            Ensures-bind _ _ (configure_instance-Ensures fresh.1)
              (λ _ _. Ensures-pure fresh.0 now.0)))

    configure_service-Ensures :
        (services : Services)
        → All Good services
        → Ensures P (All Good) (configure_service s w spec services)
    unfolding configure_service
    configure_service-Ensures services has =
        Ensures-bind _ _ (ensure_service-IsKnown s w P Good rules spec listed services has)
          (λ found known. configure_found-Ensures found.0 found.1 known)

  pub configure_services-Ensures :
      (specs : List ServiceSpec) (services : Services)
      → ((spec : ServiceSpec) → Among spec specs → Among spec service_specs)
      → All Good services
      → Ensures P (All Good) (configure_services s w specs services)
  unfolding configure_services
  configure_services-Ensures [] services listed has = Ensures-pure services has
  configure_services-Ensures (spec ∷ specs) services listed has =
      Ensures-bind _ _ (configure_service-Ensures spec (listed spec (inl refl)) services has)
        (λ now known. configure_services-Ensures specs now (λ other h. listed other (inr h)) known)
