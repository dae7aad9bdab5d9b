-- ===== src/Proxy/Laws.antt =====
-- chaos/watchdog/route.ts: the order of the sources, and whose watchdog runs.
use pe_hackathon.Base.{
  ◌≡◌, refl, ap, true, false, Option, none, some, ◌⊎◌, inl, inr, String, List, [], ◌∷◌, ◌++◌, arith,
  returned, threw, Outcome,
}
use pe_hackathon.Text.{truthy}
use pe_hackathon.Env.{Env}
use pe_hackathon.Visibility.Rows.{railway_ids_configured, railway_visibility_configured}
use pe_hackathon.Tick.State.{WatchdogPersistentState, error_source}
use pe_hackathon.Proxy.Normalize.{DockerStatusJson, normalize_docker_watchdog}
use pe_hackathon.Proxy.Status.{
  Fetch, read_status, try_candidates, watchdog_service_base_url, resolve_watchdog_status_urls,
  ProxyWorld, from_remote, from_local, from_docker, get_watchdog,
}

-- None of the candidates yields a status.
unfoldable pub AllFail : (String → Fetch DockerStatusJson) → List String → Type 0
AllFail reply [] = Unit
AllFail reply (base ∷ bases) =
    ((msg : String) × (read_status base (reply base) ≡ threw msg)) × AllFail reply bases

-- The first candidate that yields a status, and all before it.
abbrev pub FirstAnswer : (String → Fetch DockerStatusJson) → List String → DockerStatusJson → Type 0
FirstAnswer reply bases raw =
    (before : List String) × (base : String) × (after : List String) × (bases
      ≡ before ++ base ∷ after)
    × AllFail reply before
    × (read_status base (reply base) ≡ returned raw)

Outcome-cases {ℓ} :
    {A : Type ℓ} (o : Outcome A) → ((a : A) × (o ≡ returned a)) ⊎ ((msg : String) × (o ≡ threw msg))
Outcome-cases (returned a) = inl (a, refl)
Outcome-cases (threw msg) = inr (msg, refl)

try_candidates-cases :
    (reply : String → Fetch DockerStatusJson) (bases : List String) (last : Option String)
    → ((raw : DockerStatusJson) × (try_candidates reply bases last ≡ inr raw)
        × FirstAnswer reply bases raw)
      ⊎ ((err : Option String) × (try_candidates reply bases last ≡ inl err) × AllFail reply bases)
unfolding try_candidates AllFail
try_candidates-cases reply [] last = inr (last, refl, tt)
try_candidates-cases reply (base ∷ bases) last =
    elim (Outcome-cases (read_status base (reply base))) [
      | inl (raw, e) ↦ inl (raw, rw (e, try_candidates) refl, ([], base, bases, refl, tt, e))
      | inr (msg, e) ↦ elim (try_candidates-cases reply bases (some msg)) [
        | inl (raw, found, (before, b, after, split, failed, good)) ↦ inl (
          raw,
          rw (e, try_candidates) found,
          (base ∷ before, b, after, ap (λ bs. base ∷ bs) split, ((msg, e), failed), good),
        )
        | inr (err, none_left, failed) ↦
            inr (err, rw (e, try_candidates) none_left, ((msg, e), failed))
      ]
    ]

-- Where Railway's project is not configured, the response is the status of the first candidate that
-- answers with one, after all before it have failed; if all fail, it is an error with the status 503.
pub first_candidate :
    (env process : Env) (w : ProxyWorld) (s : WatchdogPersistentState)
    → railway_ids_configured env ≡ false
    → let r = get_watchdog env process w s in
      let bases = resolve_watchdog_status_urls env process in
      ((raw : DockerStatusJson) × FirstAnswer w.candidate bases raw
        × (r.status ≡ 200)
        × (r.payload ≡ normalize_docker_watchdog raw))
      ⊎ (AllFail w.candidate bases × (r.status ≡ 503) × (r.payload.source ≡ error_source))
unfolding get_watchdog from_docker
first_candidate env process w s off =
    let bases = resolve_watchdog_status_urls env process in
    elim (try_candidates-cases w.candidate bases none) [
      | inl (raw, found, first) ↦ inl (raw, first, rw (off, found) refl, rw (off, found) refl)
      | inr (err, none_left, failed) ↦
          inr (failed, rw (off, none_left) refl, rw (off, none_left) refl)
    ]

-- Either Railway is configured with a token, no worker's address is set, or one of slashes alone, and the
-- response is what a tick of the dashboard's own watchdog yields; or the state of that watchdog stays as
-- it was and no deployment is asked for.
pub own_watchdog :
    (env process : Env) (w : ProxyWorld) (s : WatchdogPersistentState)
    → let r = get_watchdog env process w s in
      ((railway_visibility_configured env ≡ true)
        × (truthy (watchdog_service_base_url process) ≡ none)
        × (r ≡ from_local env w.local s))
      ⊎ ((r.state ≡ s) × (r.requests ≡ []))
unfolding get_watchdog from_remote from_docker railway_visibility_configured
own_watchdog env process w s = ground arith
