-- ===== src/Setup/Settled.antt =====
-- setup-railway.js: services that are as the script wants them.
pub mod Run
use pe_hackathon.Base.{
  ◌≡◌, refl, sym, subst, ap, ◌∙◌, inl, inr, Bool, true, false, not, ◌&&◌, ◌||◌, Option, none, some,
  String, List, [], ◌∷◌, ◌==◌, arith, Outcome, returned, threw, keep, ◌++◌, Bool-cases, eq_iff,
  if◌then◌else◌,
}
use pe_hackathon.Base.Store.{get}
use pe_hackathon.Setup.Project.{
  Trigger, ServiceNode, ServiceInstance, ServiceSpec, service_specs, normalize_repo, is_ours,
  on_branch, services_map,
}
use pe_hackathon.Setup.Client.{
  Request, query_project, query_instance, Script, pure, lift, need, Settings, Remote, read_gql,
  fetch_services_map, fetch_instance,
}
use pe_hackathon.Setup.Configure.{
  Services, Found, is_set, is_nothing, ensure_service, update_trigger, update_triggers,
  link_service, link_ours, link_first, set_branches, set_branches_of, refresh_service,
  instance_input, update_instance, configure_instance, configure_found, configure_service,
  configure_services,
}
use pe_hackathon.Setup.Main.{Machine, redeploy_all, run}
use pe_hackathon.Setup.Ensures.{
  Everything, Holds, Ensures, Anything, Ensures-lift, Ensures-if, Ensures-skip, Ensures-some,
  Ensures-gql, Ensures-bind, Ensures-done, Ensures-pure, Ensures-then, Ensures-outcome,
}
use pe_hackathon.Setup.Rules.{Among}

-- A request that changes nothing.
abbrev pub IsQuery : Request → Type 0
IsQuery query_project = Unit {0}
IsQuery (query_instance _) = Unit {0}
IsQuery _ = ⊥

abbrev pub Each : {A : Type 0} → (A → Type 0) → List A → Type 0
Each P [] = Unit {0}
Each P (x ∷ xs) = P x × Each P xs

abbrev pub IsSome : List Trigger → Type 0
IsSome [] = ⊥
IsSome (t ∷ ts) = Unit {0}

module _ (s : Settings) where
  -- A service has triggers, and those that are for this repository and environment deploy the branch.
  abbrev pub IsLinked : ServiceNode → Type 0
  IsLinked svc =
      IsSome svc.triggers
      × Each (λ t. on_branch s.branch t ≡ true)
          (keep (is_ours s.repo s.environment_id) svc.triggers)

  -- The service of a specification, with the id that Railway has for its name.
  abbrev pub IsService : (String → String) → ServiceSpec → Option ServiceNode → Type 0
  IsService id_of spec none = ⊥
  IsService id_of spec (some svc) = (svc.id ≡ id_of spec.name) × IsLinked svc

  abbrev pub HasServices : (String → String) → Services → Type 0
  HasServices id_of services =
      (spec : ServiceSpec)
      → Among spec service_specs
      → IsService id_of spec (get services spec.name)

-- Whatever was asked before, Railway reports the listed services, linked, and their instances need no
-- update.
pub record IsSettled (s : Settings) (w : Remote) (id_of : String → String) : Type 0 where
  pub services :
      (h : List Request) (edges : List (Option ServiceNode))
      → read_gql (w.project (h ++ query_project ∷ [])) ≡ returned (some edges)
      → HasServices s id_of (services_map [] edges)
  pub instances :
      (h : List Request) (spec : ServiceSpec) (si : Option ServiceInstance)
      → Among spec service_specs
      → read_gql (w.instance_of (h ++ query_instance (id_of spec.name) ∷ [])) ≡ returned (some si)
      → is_nothing (instance_input s w spec si) ≡ true

pub Each-keep : (p : Trigger → Bool) (ts : List Trigger) → Each (λ t. p t ≡ true) (keep p ts)
unfolding keep
Each-keep p [] = tt
Each-keep p (t ∷ ts) = elim (Bool-cases (p t)) [
  | inl kept ↦ rw kept (kept, Each-keep p ts)
  | inr left ↦ rw left (Each-keep p ts)
]
