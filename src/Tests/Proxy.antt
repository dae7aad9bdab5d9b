-- ===== src/Tests/Proxy.antt =====
-- The theorems about the watchdog's routes on the dashboard.
use pe_hackathon.Base.{◌≡◌, ◌⊎◌, refl, true, none, some, [], ◌∷◌, returned, ◌==◌, if◌then◌else◌}
use pe_hackathon.Text.{truthy}
use pe_hackathon.Env.{Env}
use pe_hackathon.Visibility.Rows.{railway_visibility_configured, railway_ids_configured}
use pe_hackathon.Tick.State.{create_empty_watchdog_state, error_source}
use pe_hackathon.Proxy.Normalize.{DockerStatusJson, normalize_docker_watchdog}
use pe_hackathon.Proxy.Status.{
  unreached, got, ticks, ProxyWorld, get_watchdog, from_local, watchdog_service_base_url,
  resolve_watchdog_status_urls,
}
use pe_hackathon.Proxy.Laws.{AllFail, FirstAnswer, first_candidate, own_watchdog}
use pe_hackathon.Tests.Fixtures.{env, inputs}

abbrev compose_status : DockerStatusJson
compose_status = record {
  interval_sec = some 15;
  last_tick_at = some "2026-04-05T12:00:00Z";
  instances_monitored = some 3;
  log_tail = none;
  events =
      some
        (record { id = "1"; at = "t"; service = "db"; action = some "start"; reason = none } ∷ []);
}

-- The name of the container is unknown to the host, and the published port answers.
abbrev proxy_world : ProxyWorld
proxy_world = record {
  remote = unreached "getaddrinfo ENOTFOUND";
  local = ticks inputs;
  candidate = λ base.
      if base == "http://127.0.0.1:8099"
      then got 200 (returned "") (returned compose_status)
      else unreached "getaddrinfo ENOTFOUND";
}

abbrev no_settings : Env
no_settings key = none

first_candidate_example :
    let r = get_watchdog no_settings no_settings proxy_world create_empty_watchdog_state in
    let bases = resolve_watchdog_status_urls no_settings no_settings in
    ((raw : DockerStatusJson) × FirstAnswer (proxy_world).candidate bases raw
      × (r.status ≡ 200)
      × (r.payload ≡ normalize_docker_watchdog raw))
    ⊎ (AllFail (proxy_world).candidate bases × (r.status ≡ 503) × (r.payload.source ≡ error_source))
unfolding railway_ids_configured
first_candidate_example =
    first_candidate no_settings no_settings proxy_world create_empty_watchdog_state refl

own_watchdog_example :
    let r = get_watchdog env no_settings proxy_world create_empty_watchdog_state in
    ((railway_visibility_configured env ≡ true)
      × (truthy (watchdog_service_base_url no_settings) ≡ none)
      × (r ≡ from_local env (proxy_world).local create_empty_watchdog_state))
    ⊎ ((r.state ≡ create_empty_watchdog_state) × (r.requests ≡ []))
own_watchdog_example = own_watchdog env no_settings proxy_world create_empty_watchdog_state
