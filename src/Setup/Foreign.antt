-- ===== src/Setup/Foreign.antt =====
-- setup-railway.js: the triggers that the script leaves alone.
use pe_hackathon.Base.{
  ◌≡◌, sym, subst, ap, ◌∙◌, inl, inr, Bool, true, false, Option, none, some, String, List, [], ◌∷◌,
  ◌==◌, arith, returned, keep, Bool-cases,
}
use pe_hackathon.Base.Store.{Store, get, put, get-put}
use pe_hackathon.Text.{truthy}
use pe_hackathon.Setup.EnvFile.{load_optional_env_file}
use pe_hackathon.Setup.Project.{Trigger, ServiceNode, is_ours, services_map}
use pe_hackathon.Setup.Client.{Request, trigger_update, Settings, Remote, read_gql}
use pe_hackathon.Setup.Main.{Machine, read_config, settings_of, main}
use pe_hackathon.Setup.Ensures.{Everything}
use pe_hackathon.Setup.Rules.{Among, If, All, Rules}
use pe_hackathon.Setup.Rules.Main.{main-Everything}

-- A request updates no trigger of the set `theirs`.
abbrev pub IsSpared : (String → Bool) → Request → Type 0
IsSpared theirs (trigger_update id _ _ _) = theirs id ≡ false
IsSpared theirs _ = Unit {0}

true-false : true ≡ false → ⊥
true-false h = absurd (ground arith)

module _ (s : Settings) (theirs : String → Bool) where
  -- The triggers of the set are for another repository or another environment.
  abbrev pub IsForeign : ServiceNode → Type 0
  IsForeign svc =
      (t : Trigger)
      → Among t svc.triggers
      → theirs t.id ≡ true
      → is_ours s.repo s.environment_id t ≡ false

  abbrev pub AllForeign : List (Option ServiceNode) → Type 0
  AllForeign [] = Unit {0}
  AllForeign (o ∷ os) = If IsForeign o × AllForeign os

  All-put :
      (services : Store ServiceNode) (name : String) (svc : ServiceNode)
      → All IsForeign services
      → IsForeign svc
      → All IsForeign (put services name svc)
  All-put services name svc has good other = elim (Bool-cases (name == other)) [
    | inl same ↦ subst (If IsForeign) (sym (get-put services name other svc)) (rw same good)
    | inr different ↦
        subst (If IsForeign) (sym (get-put services name other svc)) (rw different (has other))
  ]

  All-option :
      (o : Option String) (n : Store ServiceNode) (f : String → Store ServiceNode)
      → All IsForeign n
      → ((name : String) → All IsForeign (f name))
      → All IsForeign (elim o [ none ↦ n | some name ↦ f name ])
  All-option none n f h k = h
  All-option (some name) n f h k = k name

  All-services_map :
      (edges : List (Option ServiceNode)) (services : Store ServiceNode)
      → All IsForeign services
      → AllForeign edges
      → All IsForeign (services_map services edges)
  unfolding services_map
  All-services_map [] services has good = has
  All-services_map (none ∷ os) services has (_, good) = All-services_map os services has good
  All-services_map (some svc ∷ os) services has (foreign, good) =
      All-option (truthy svc.name) _ _ (All-services_map os services has good) (λ name.
        All-services_map os (put services name svc) (All-put services name svc has foreign) good)

Among-keep :
    (p : Trigger → Bool) (ts : List Trigger) (t : Trigger)
    → Among t (keep p ts)
    → Among t ts × (p t ≡ true)
unfolding keep
Among-keep p [] t = λ h. absurd h
Among-keep p (u ∷ us) t = elim (Bool-cases (p u)) [
  | inl kept ↦ rw kept (λ h. elim h [
    | inl same ↦ (inl same, ap p same ∙ kept)
    | inr later ↦ let (there, holds) = Among-keep p us t later in (inr there, holds)
  ])
  | inr left ↦ rw left (λ h. let (there, holds) = Among-keep p us t h in (inr there, holds))
]

rules-IsSpared :
    (s : Settings) (w : Remote) (theirs : String → Bool)
    → ((h : List Request) (edges : List (Option ServiceNode))
        → read_gql (w.project h) ≡ returned (some edges)
        → AllForeign s theirs edges)
    → Rules s w (IsSpared theirs) (IsForeign s theirs)
unfolding get
rules-IsSpared s w theirs foreign = record {
  project = tt;
  instances = λ id. tt;
  known = λ h edges same. All-services_map s theirs edges [] (λ name. tt) (foreign h edges same);
  create = λ spec live listed. tt;
  connects = λ id live. tt;
  creates_trigger = λ id spec live listed. tt;
  updates_trigger = λ svc t spec live good ours listed. spared svc t good ours;
  updates_instance = λ id spec si live listed. tt;
  deploys = λ id live go. tt;
  upserts = λ id skip variables live synced. tt;
  saves = λ text live synced. tt;
}
  where
    spared :
        (svc : ServiceNode) (t : Trigger)
        → IsForeign s theirs svc
        → Among t (keep (is_ours s.repo s.environment_id) svc.triggers)
        → theirs t.id ≡ false
    spared svc t good ours =
        let (there, holds) = Among-keep (is_ours s.repo s.environment_id) svc.triggers t ours in
        elim (Bool-cases (theirs t.id)) [
          | inl foreigner ↦ absurd (true-false (sym holds ∙ good t there foreigner))
          | inr other ↦ other
        ]

-- If Railway, whatever was asked before, reports the triggers of a set only as triggers of another repository or of
-- another environment, then the script updates none of them, and this in any run: over the services that it
-- read first and over those that it reads again after each change.
pub main-IsSpared :
    (w : Remote) (m : Machine) (ids : String × String) (theirs : String → Bool)
    → read_config m ≡ returned ids
    → ((h : List Request) (edges : List (Option ServiceNode))
        → read_gql (w.project h) ≡ returned (some edges)
        → AllForeign (settings_of (load_optional_env_file m.env m.files.setup) ids) theirs edges)
    → Everything (IsSpared theirs) (main w m []).1
main-IsSpared w m ids theirs known foreign =
    main-Everything w m ids _ _ known (
      rules-IsSpared (settings_of (load_optional_env_file m.env m.files.setup) ids) w theirs
        foreign)
