-- ===== src/Setup/References/Closed.antt =====
-- setup-railway.js: no variable refers to a service that the project does not have.
use mathlib.Core.List.{append-nil}
use pe_hackathon.Base.{
  ◌≡◌, refl, subst, ap, ◌∙◌, inl, inr, true, not, ◌&&◌, some, String, List, [], ◌∷◌, ◌++◌, arith,
  or_else, has, Option-cases,
}
use pe_hackathon.Base.Store.{Store}
use pe_hackathon.Text.{is_empty}
use pe_hackathon.Setup.Plugins.{Value, kafka_bootstrap_ref}
use pe_hackathon.Setup.Wiring.{
  Wiring, plain, when, with_value, kafka_servers, rate_limit_storage, log_ingest, log_ingest_url,
  log_ingest_token, url_shortener_base, find_wiring,
}
use pe_hackathon.Setup.Variables.{
  planned, load_balancer_vars, load_test_target, dashboard_backend_vars, railway_watchdog_vars,
  dashboard_vars, user_frontend_vars, sync_plan, private_url, poll_seconds, tokens, chaos_allowed,
}
use pe_hackathon.Setup.References.{
  refers_only, all_refer, IsClosed, IsClosed-planned, both, all_refer-option, all_refer-both,
  all_refer-when, all_refer-with_value,
}
use pe_hackathon.Setup.References.Found.{IsFound, find_wiring-IsFound}

module _ (w : Wiring) (f : IsFound w) where
  kafka_servers-lem : all_refer w.names (kafka_servers w) ≡ true
  unfolding kafka_servers kafka_bootstrap_ref
  kafka_servers-lem =
      all_refer-option w.names w.kafka _
        (λ kafka h. both _ _ (both _ _ (f.kafka kafka h) refl) refl)

  log_ingest_url-lem : (url : Value) → log_ingest_url w ≡ some url → refers_only w.names url ≡ true
  unfolding log_ingest_url
  log_ingest_url-lem url h = ground arith

  log_ingest-lem : all_refer w.names (log_ingest w) ≡ true
  unfolding log_ingest
  log_ingest-lem =
      all_refer-option w.names (log_ingest_url w) _
        (λ url h. both _ _ (log_ingest_url-lem url h) refl)

  rate_limit_storage-lem : refers_only w.names (rate_limit_storage w) ≡ true
  unfolding rate_limit_storage
  rate_limit_storage-lem = elim (Option-cases w.redis) [
    | inl nothing ↦ ground arith
    | inr (redis, h) ↦ ground (arith, f.redis redis h)
  ]

  url_shortener_base-lem : all_refer w.names (url_shortener_base w) ≡ true
  unfolding url_shortener_base
  url_shortener_base-lem = both _ _ (both _ _ f.postgres refl) (
      both _ _ rate_limit_storage-lem (
        all_refer-both w.names (kafka_servers w) _ kafka_servers-lem
          (all_refer-both w.names (log_ingest w) _ log_ingest-lem refl)))

  load_test_target-lem : (v : Value) → load_test_target w ≡ some v → refers_only w.names v ≡ true
  unfolding load_test_target
  load_test_target-lem v h = ground arith

  dashboard_backend_vars-lem : all_refer w.names (dashboard_backend_vars w) ≡ true
  unfolding dashboard_backend_vars
  dashboard_backend_vars-lem = both _ _ (both _ _ database refl) (
      all_refer-both w.names (with_value "LOAD_TEST_TARGET_URL" (load_test_target w)) _
        (all_refer-with_value w.names _ (load_test_target w) load_test_target-lem)
        (all_refer-both w.names (kafka_servers w) _ kafka_servers-lem (
          all_refer-when w.names (not (is_empty (log_ingest_token w)))
            (("LOG_INGEST_TOKEN", plain (log_ingest_token w)) ∷ []) (λ _. refl))))
    where
      database : has w.names (or_else w.dashboard_postgres w.postgres) ≡ true
      database = elim (Option-cases w.dashboard_postgres) [
        | inl nothing ↦ ground (arith, f.postgres)
        | inr (x, h) ↦ ground (arith, f.dashboard x h)
      ]

  load_balancer_vars-lem :
      has w.names "url-shortener-a" ≡ true
      → has w.names "url-shortener-b" ≡ true
      → all_refer w.names (load_balancer_vars w) ≡ true
  unfolding load_balancer_vars
  load_balancer_vars-lem a b = ground arith

  poll_seconds-lem : all_refer w.names (poll_seconds w) ≡ true
  unfolding poll_seconds
  poll_seconds-lem = ground arith

  tokens-lem : all_refer w.names (tokens w) ≡ true
  unfolding tokens
  tokens-lem = ground arith

  railway_watchdog_vars-lem : all_refer w.names (railway_watchdog_vars w) ≡ true
  unfolding railway_watchdog_vars
  railway_watchdog_vars-lem =
      all_refer-both w.names (poll_seconds w) (tokens w) poll_seconds-lem tokens-lem

  chaos_allowed-lem : all_refer w.names (chaos_allowed w) ≡ true
  unfolding chaos_allowed
  chaos_allowed-lem = ground arith

  module _ (backend : has w.names "dashboard-backend" ≡ true)
      (first : has w.names "url-shortener-a" ≡ true) where
    dashboard_vars-lem : all_refer w.names (dashboard_vars w) ≡ true
    unfolding dashboard_vars
    dashboard_vars-lem = both _ _ (both _ _ backend (both _ _ backend refl)) (
        all_refer-both w.names (when (has w.names "railway-watchdog") _) _
          (all_refer-when w.names (has w.names "railway-watchdog")
            (("WATCHDOG_SERVICE_URL", private_url "railway-watchdog") ∷ [])
            (λ h. both _ _ (both _ _ h (both _ _ h refl)) refl))
          (all_refer-both w.names
            (with_value "NEXT_PUBLIC_LOAD_TEST_TARGET_URL" (load_test_target w)) _
            (all_refer-with_value w.names _ (load_test_target w) load_test_target-lem)
            (all_refer-both w.names (poll_seconds w) _ poll_seconds-lem
              (all_refer-both w.names (tokens w) (chaos_allowed w) tokens-lem chaos_allowed-lem))))

    user_frontend_vars-lem : all_refer w.names (user_frontend_vars w) ≡ true
    unfolding user_frontend_vars
    user_frontend_vars-lem = ground arith

    sync_plan-lem : IsClosed w.names (sync_plan w)
    unfolding sync_plan
    sync_plan-lem = (
      all_refer-both w.names (url_shortener_base w) _ url_shortener_base-lem refl,
      (
        all_refer-both w.names (url_shortener_base w) _ url_shortener_base-lem refl,
        IsClosed-planned w.names
            (has w.names "load-balancer"
              && has w.names "url-shortener-a"
              && has w.names "url-shortener-b")
            "load-balancer" (load_balancer_vars w) _
            (λ h. load_balancer_vars-lem (ground arith) (ground arith))
            (dashboard_backend_vars-lem, later),
      ),
    )
      where
        frontend :
            IsClosed w.names
              (planned (has w.names "user-frontend") "user-frontend" (user_frontend_vars w))
        frontend = subst (IsClosed w.names) (append-nil _) (
            IsClosed-planned w.names (has w.names "user-frontend") "user-frontend"
              (user_frontend_vars w) [] (λ _. user_frontend_vars-lem) tt)

        later : IsClosed w.names (
            planned (has w.names "railway-watchdog") "railway-watchdog" (railway_watchdog_vars w)
            ++ (planned (has w.names "dashboard") "dashboard" (dashboard_vars w)
                ++ planned (has w.names "user-frontend") "user-frontend" (user_frontend_vars w)))
        later =
            IsClosed-planned w.names (has w.names "railway-watchdog") "railway-watchdog"
              (railway_watchdog_vars w) _ (λ _. railway_watchdog_vars-lem)
              (IsClosed-planned w.names (has w.names "dashboard") "dashboard" (dashboard_vars w) _
                (λ _. dashboard_vars-lem) frontend)

-- If a Postgres service is found, and dashboard-backend and url-shortener-a are services of the project,
-- then every variable that the script sets refers to services of the project alone, be they found by
-- their names (Postgres, Redis, Kafka) or fixed in the script.
pub sync_plan-IsClosed :
    (env : Store String) (names : List String) (project_id environment_id : String) (w : Wiring)
    → find_wiring env names project_id environment_id ≡ some w
    → has names "dashboard-backend" ≡ true
    → has names "url-shortener-a" ≡ true
    → IsClosed names (sync_plan w)
sync_plan-IsClosed env names project_id environment_id w h backend first =
    let (f, same) = find_wiring-IsFound env names project_id environment_id w h in
    subst (λ ns. IsClosed ns (sync_plan w)) same
      (sync_plan-lem w f (ap (λ ns. has ns "dashboard-backend") same ∙ backend)
        (ap (λ ns. has ns "url-shortener-a") same ∙ first))
