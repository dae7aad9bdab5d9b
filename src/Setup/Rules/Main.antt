-- ===== src/Setup/Rules/Main.antt =====
-- setup-railway.js: a whole run, under the rules of the requests.
use pe_hackathon.Base.{
  ◌≡◌, refl, sym, subst, Bool, true, false, not, ◌&&◌, String, List, [], ◌∷◌, arith, Outcome,
  returned, threw,
}
use pe_hackathon.Base.Store.{Store, get}
use pe_hackathon.Setup.EnvFile.{load_optional_env_file}
use pe_hackathon.Setup.Project.{ServiceNode, ServiceSpec, service_specs}
use pe_hackathon.Setup.Client.{
  Request, setup_file, instance_deploy, Settings, Remote, get_auth_headers, variables_upsert, lift,
}
use pe_hackathon.Setup.Configure.{Services, is_set}
use pe_hackathon.Setup.Plugins.{service_names}
use pe_hackathon.Setup.Wiring.{Variables}
use pe_hackathon.Setup.IngestToken.{Files}
use pe_hackathon.Setup.Variables.{Plan, sync_plan}
use pe_hackathon.Setup.Main.{
  Machine, upsert, upsert_all, redeploy, redeploy_now, redeploy_all, save_file, sync_variables,
  sync_wiring, read_config, settings_of, run, start, main,
}
use pe_hackathon.Setup.Ensures.{
  Everything, Ensures, Anything, Ensures-note, Ensures-attempt, Ensures-if, Ensures-mutate,
  Ensures-option, Ensures-then, Ensures-done, Ensures-bind, Ensures-lift, Holds,
}
use pe_hackathon.Setup.Rules.{Rules, fetch-All}
use pe_hackathon.Setup.Rules.Run.{configure_services-Ensures}

-- Both parts of a test hold.
both-true : (a b : Bool) → (a && b) ≡ true → (a ≡ true) × (b ≡ true)
both-true a b h = ground arith

not-true : (a : Bool) → not a ≡ true → a ≡ false
not-true a h = ground arith

module _ (s : Settings) (w : Remote) (P : Request → Type 0) (Good : ServiceNode → Type 0)
    (rules : Rules s w P Good) where
  redeploy-Ensures :
      (services : Services) (specs : List ServiceSpec)
      → s.dry ≡ false
      → is_set s.env "SKIP_REDEPLOY" ≡ false
      → Ensures P Anything (redeploy s w services specs)
  unfolding redeploy
  redeploy-Ensures services [] live go = Ensures-done _
  redeploy-Ensures services (spec ∷ specs) live go =
      Ensures-option (get services spec.name) _ _ (redeploy-Ensures services specs live go)
        (λ svc _.
          Ensures-then _ _
            (Ensures-attempt _
              (Ensures-mutate s w (instance_deploy svc.id) (rules.deploys svc.id live go)))
            (λ r. redeploy-Ensures services specs live go))

  redeploy_all-Ensures : Ensures P Anything (redeploy_all s w)
  unfolding redeploy_all redeploy_now
  redeploy_all-Ensures =
      Ensures-if (not s.dry && not (is_set s.env "SKIP_REDEPLOY")) _ _
        (λ h.
          let (live, go) = both-true (not s.dry) (not (is_set s.env "SKIP_REDEPLOY")) h in
          Ensures-bind _ _ (fetch-All s w P Good rules) (λ services has.
            redeploy-Ensures services service_specs (not-true _ live) (not-true _ go)))
        (λ _. Ensures-done _)

  -- The upserts read an environment that the token may have changed.
  module _ (env : Store String) (synced : is_set s.env "SYNC_VARIABLES" ≡ true) where
    upsert-Ensures :
        (services : Services) (name : String) (variables : Variables)
        → Ensures P Anything (upsert (record s { env = env }) w services name variables)
    unfolding upsert
    upsert-Ensures services name variables =
        Ensures-option (get services name) _ _ (Ensures-done _) (λ svc _.
          Ensures-if s.dry _ _ (λ _. Ensures-done _)
            (λ live.
              Ensures-mutate (record s { env = env }) w (variables_upsert _ _ _)
                (rules.upserts _ _ _ live synced)))

    upsert_all-Ensures :
        (services : Services) (plan : Plan)
        → Ensures P Anything (upsert_all (record s { env = env }) w services plan)
    unfolding upsert_all
    upsert_all-Ensures services [] = Ensures-done _
    upsert_all-Ensures services ((name, variables) ∷ plan) =
        Ensures-then _ _ (upsert-Ensures services name variables)
          (λ _. upsert_all-Ensures services plan)

  module _ (m : Machine) where
    save_file-Ensures :
        (dry : Bool) (files : Files)
        → s.dry ≡ dry
        → is_set s.env "SYNC_VARIABLES" ≡ true
        → Ensures P Anything (save_file dry files)
    unfolding save_file
    save_file-Ensures true files live synced = Ensures-done _
    save_file-Ensures false files live synced =
        Ensures-note (setup_file files.setup) (rules.saves _ live synced)

    sync_variables-Ensures :
        is_set s.env "SYNC_VARIABLES" ≡ true → Ensures P Anything (sync_variables s w m)
    unfolding sync_variables
    sync_variables-Ensures synced = Ensures-bind _ _ (fetch-All s w P Good rules) (λ services has.
        Ensures-option (sync_wiring s m (service_names services)) _ _ (Ensures-done _)
          (λ (env, files, wiring) _.
            Ensures-then _ _ (save_file-Ensures s.dry files refl synced)
              (λ _. upsert_all-Ensures env synced services (sync_plan wiring))))

    pub run-Ensures : Ensures P Anything (run s w m)
    unfolding run
    run-Ensures = Ensures-bind _ _ (fetch-All s w P Good rules) (λ services has.
        Ensures-bind _ _
          (configure_services-Ensures s w P Good rules service_specs services
            (λ spec listed. listed) has)
          (λ _ _. Ensures-then _ _ (redeploy_all-Ensures) (λ _.
            Ensures-if (is_set s.env "SYNC_VARIABLES") _ _ sync_variables-Ensures
              (λ _. Ensures-done _))))

-- Under rules for the settings that the environment, its file and the configuration give.
pub main-Everything :
    (w : Remote) (m : Machine) (ids : String × String) (P : Request → Type 0)
    (Good : ServiceNode → Type 0)
    → read_config m ≡ returned ids
    → Rules (settings_of (load_optional_env_file m.env m.files.setup) ids) w P Good
    → Everything P (main w m []).1
unfolding main start lift
main-Everything w m ids P Good known rules = starts (get_auth_headers env)
  where
    env : Store String
    env = load_optional_env_file m.env m.files.setup

    starts : (r : Outcome (String × String)) → Everything P (start env w m r []).1
    starts (threw msg) = tt
    starts (returned _) =
        ((Ensures-bind {Q = λ found. found ≡ ids} (lift (read_config m)) _
            (Ensures-lift (read_config m) (subst (Holds (λ found. found ≡ ids)) (sym known) refl))
            (λ found same.
              subst (λ i. Ensures P Anything (run (settings_of env i) w m)) (sym same)
                (run-Ensures (settings_of env ids) w P Good rules m))).at
          [] tt).0
