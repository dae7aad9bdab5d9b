-- ===== src/Setup/Rules.antt =====
-- setup-railway.js: a property of all that a run asks for, from the property of each kind of request at the
-- place where the script makes it.
pub mod Run
pub mod Main
use pe_hackathon.Base.{
  ◌≡◌, refl, ap, subst, ◌∙◌, ◌⊎◌, inl, inr, Bool, true, false, ◌||◌, Option, none, some, List, [],
  ◌∷◌, ◌++◌, arith, Outcome, returned, threw, keep, String,
}
use pe_hackathon.Base.Store.{Store, get}
use pe_hackathon.Setup.Project.{
  Trigger, ServiceNode, ServiceInstance, ServiceSpec, service_specs, is_ours, services_map,
}
use pe_hackathon.Setup.Client.{
  Request, query_project, query_instance, service_create, service_connect, trigger_create,
  trigger_update, instance_update, instance_deploy, variables_upsert, setup_file, Script, Settings,
  Remote, read_gql, fetch_services_map, fetch_instance,
}
use pe_hackathon.Setup.Configure.{
  Services, Found, is_set, is_nothing, ensure_service, update_trigger, update_triggers, connect,
  or_create_trigger, link_first, link_ours, link_service, set_branches, set_branches_of,
  refresh_service, instance_input, update_instance, configure_instance, configure_found,
  configure_service, configure_services, after_create,
}
use pe_hackathon.Setup.Ensures.{
  Anything, Ensures, Ensures-attempt, Ensures-if, Ensures-mutate, Ensures-option, Ensures-bind,
  Ensures-then, Ensures-done, Ensures-outcome, Ensures-query, Ensures-gql, Ensures-pure,
  Ensures-lift, Ensures-need, Given, Given-known, Holds-known,
}

abbrev pub Among : {A : Type 0} → A → List A → Type 0
Among x [] = ⊥
Among x (y ∷ ys) = (x ≡ y) ⊎ Among x ys

-- A service that a map has, or no service.
abbrev pub If : (ServiceNode → Type 0) → Option ServiceNode → Type 0
If Good none = Unit {0}
If Good (some svc) = Good svc

abbrev pub All : (ServiceNode → Type 0) → Services → Type 0
All Good services = (name : String) → If Good (get services name)

-- The property `P` of requests, at each place where the script makes one; `Good` is what is known of
-- the services that Railway reports.
pub record Rules (s : Settings) (w : Remote) (P : Request → Type 0) (Good : ServiceNode → Type 0)
    : Type 0 where
  pub project : P query_project
  pub instances : (id : String) → P (query_instance id)
  pub known :
      (h : List Request) (edges : List (Option ServiceNode))
      → read_gql (w.project h) ≡ returned (some edges)
      → All Good (services_map [] edges)
  pub create :
      (spec : ServiceSpec)
      → s.dry ≡ false
      → Among spec service_specs
      → P (service_create spec.name s.branch s.repo)
  pub connects : (id : String) → s.dry ≡ false → P (service_connect id s.repo s.branch)
  pub creates_trigger :
      (id : String) (spec : ServiceSpec)
      → s.dry ≡ false
      → Among spec service_specs
      → P (trigger_create id s.branch s.repo spec.root_directory)
  pub updates_trigger :
      (svc : ServiceNode) (t : Trigger) (spec : ServiceSpec)
      → s.dry ≡ false
      → Good svc
      → Among t (keep (is_ours s.repo s.environment_id) svc.triggers)
      → Among spec service_specs
      → P (trigger_update t.id s.branch s.repo spec.root_directory)
  pub updates_instance :
      (id : String) (spec : ServiceSpec) (si : Option ServiceInstance)
      → s.dry ≡ false
      → Among spec service_specs
      → P (instance_update id (instance_input s w spec si))
  pub deploys :
      (id : String) → s.dry ≡ false → is_set s.env "SKIP_REDEPLOY" ≡ false → P (instance_deploy id)
  pub upserts :
      (id : String) (skip : Bool) (variables : List (String × String))
      → s.dry ≡ false
      → is_set s.env "SYNC_VARIABLES" ≡ true
      → P (variables_upsert id skip variables)
  pub saves :
      (text : Option String)
      → s.dry ≡ false
      → is_set s.env "SYNC_VARIABLES" ≡ true
      → P (setup_file text)

pub or-right : (a b : Bool) → (a || b) ≡ false → b ≡ false
or-right a b h = ground arith

module _ (s : Settings) (w : Remote) (P : Request → Type 0) (Good : ServiceNode → Type 0)
    (rules : Rules s w P Good) where
  pub fetch-All : Ensures P (All Good) (fetch_services_map s w)
  unfolding fetch_services_map
  fetch-All =
      Ensures-bind _ _
        (Ensures-gql {Q = Given (λ edges. All Good (services_map [] edges))} query_project w.project
          s.env rules.project
          (λ h. Holds-known _ _ (λ o found.
            Given-known _ o (λ edges same. rules.known _ edges (found ∙ ap returned same)))))
        (λ d given.
          Ensures-bind _ _
            (Ensures-need (λ edges. All Good (services_map [] edges)) "project" d given)
            (λ edges has. Ensures-pure _ has))

  module _ (spec : ServiceSpec) (listed : Among spec service_specs) where
    abbrev pub IsKnown : Found → Type 0
    IsKnown found = All Good found.0 × If Good found.1

    after_create-IsKnown :
        (now : Services) (o : Option ServiceNode)
        → All Good now
        → If Good o
        → Ensures P IsKnown (after_create spec now o)
    unfolding after_create
    after_create-IsKnown now none has is = Ensures-lift _ tt
    after_create-IsKnown now (some svc) has is = Ensures-pure _ (has, is)

    pub ensure_service-IsKnown :
        (services : Services)
        → All Good services
        → Ensures P IsKnown (ensure_service s w spec services)
    unfolding ensure_service
    ensure_service-IsKnown services has =
        Ensures-option (get services spec.name) _ _
          (Ensures-if s.dry _ _ (λ _. Ensures-pure _ (has, tt))
            (λ live. Ensures-bind _ _ (Ensures-mutate s w _ (rules.create spec live listed)) (λ _ _.
              Ensures-bind _ _ fetch-All
                (λ now known. after_create-IsKnown now _ known (known spec.name)))))
          (λ svc same. Ensures-pure _ (has, subst (If Good) same (has spec.name)))

    module _ (svc : ServiceNode) (good : Good svc) where
      abbrev AllOurs : List Trigger → Type 0
      AllOurs ts =
          (t : Trigger) → Among t ts → Among t (keep (is_ours s.repo s.environment_id) svc.triggers)

      update_trigger-Ensures :
          (t : Trigger)
          → Among t (keep (is_ours s.repo s.environment_id) svc.triggers)
          → s.dry ≡ false
          → Ensures P Anything (update_trigger s w spec t)
      unfolding update_trigger
      update_trigger-Ensures t ours live =
          Ensures-mutate s w _ (rules.updates_trigger svc t spec live good ours listed)

      update_triggers-Ensures :
          (ts : List Trigger) → AllOurs ts → Ensures P Anything (update_triggers s w spec ts)
      unfolding update_triggers
      update_triggers-Ensures [] ours = Ensures-done _
      update_triggers-Ensures (t ∷ ts) ours =
          Ensures-then _ _
            (Ensures-if _ _ _ (λ _. Ensures-done _)
              (λ _.
                Ensures-if s.dry _ _ (λ _. Ensures-done _)
                  (update_trigger-Ensures t (ours t (inl refl)))))
            (λ _. update_triggers-Ensures ts (λ u h. ours u (inr h)))

      pub set_branches-Ensures :
          (ts : List Trigger)
          → AllOurs ts
          → s.dry ≡ false
          → Ensures P Anything (set_branches s w spec ts)
      unfolding set_branches
      set_branches-Ensures [] ours live = Ensures-done _
      set_branches-Ensures (t ∷ ts) ours live =
          Ensures-then _ _
            (Ensures-if _ _ _ (λ _. Ensures-done _)
              (λ _. update_trigger-Ensures t (ours t (inl refl)) live))
            (λ _. set_branches-Ensures ts (λ u h. ours u (inr h)) live)

      or_create-Ensures :
          (r : Outcome (Unit {0}))
          → s.dry ≡ false
          → Ensures P Anything (or_create_trigger s w spec svc r)
      unfolding or_create_trigger
      or_create-Ensures (returned _) live = Ensures-done _
      or_create-Ensures (threw _) live =
          Ensures-mutate s w _ (rules.creates_trigger svc.id spec live listed)

      connect-Ensures : s.dry ≡ false → Ensures P Anything (connect s w spec svc)
      unfolding connect
      connect-Ensures live =
          Ensures-then _ _ (Ensures-attempt _ (Ensures-mutate s w _ (rules.connects svc.id live)))
            (λ r. or_create-Ensures r live)

      module _ (services : Services) (has : All Good services) where
        link_first-IsKnown :
            (ts : List Trigger) → Ensures P IsKnown (link_first s w spec services svc ts)
        unfolding link_first
        link_first-IsKnown (t ∷ ts) = Ensures-pure _ (has, good)
        link_first-IsKnown [] =
            Ensures-if s.dry _ _ (λ _. Ensures-pure _ (has, good))
              (λ live. Ensures-bind _ _ (connect-Ensures live) (λ _ _.
                Ensures-bind _ _ fetch-All (λ now known. Ensures-pure _ (known, known spec.name))))

        link_ours-IsKnown :
            (ts : List Trigger)
            → AllOurs ts
            → Ensures P IsKnown (link_ours s w spec services svc ts)
        unfolding link_ours
        link_ours-IsKnown [] ours = link_first-IsKnown svc.triggers
        link_ours-IsKnown (t ∷ ts) ours =
            Ensures-bind _ _ (update_triggers-Ensures (t ∷ ts) ours)
              (λ _ _. Ensures-pure _ (has, good))

        pub link_service-IsKnown : Ensures P IsKnown (link_service s w spec services svc)
        unfolding link_service
        link_service-IsKnown = link_ours-IsKnown _ (λ t h. h)
