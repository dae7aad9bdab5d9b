-- ===== src/Backend/Laws.antt =====
-- dashboard/src/app/api: which addresses the routes that check the backend's URL ask.
use pe_hackathon.Base.{
  ◌≡◌, refl, ap, ◌∙◌, ◌⊎◌, inl, inr, Bool, false, Option, none, some, String, [], ◌∷◌, ◌==◌, arith,
  eq_iff, Bool-cases, Option-cases,
}
use pe_hackathon.Text.{is_empty, template}
use pe_hackathon.Env.{Env}
use pe_hackathon.Proxy.Status.{strip_slash}
use pe_hackathon.Feeds.FetchError.{Thrown, format_fetch_error}
use pe_hackathon.Backend.Url.{
  Url, DashboardBackendBaseResult, ok, failed, localhost, configured_url, check_url,
  resolve_dashboard_backend_base,
}
use pe_hackathon.Backend.Forward.{
  Upstream, answered, thrown, Blank, RouteAnswer, passed_on, refused, Handled, with_query, forward,
}
use pe_hackathon.Backend.Guarded.{
  Hints, guarded, get_logs, get_insights, get_stats, get_backend_health,
}

pub data GuardedRoute : Type 0 where
  logs : (query : String) → GuardedRoute
  insights : (query : String) → GuardedRoute
  stats : GuardedRoute
  health : GuardedRoute

abbrev pub path_of : GuardedRoute → String
path_of (logs qs) = template ("/api/logs" ∷ with_query qs ∷ [])
path_of (insights qs) = template ("/api/logs/insights" ∷ with_query qs ∷ [])
path_of stats = "/api/stats"
path_of health = "/api/health"

module _ (parse : String → Option Url) (env : Env) where
  abbrev pub respond : (String → Upstream) → GuardedRoute → Handled
  respond fetch (logs qs) = get_logs parse env fetch qs
  respond fetch (insights qs) = get_insights parse env fetch qs
  respond fetch stats = get_stats parse env fetch
  respond fetch health = get_backend_health parse env fetch

  -- The default where no URL is set; or the URL that is set, an absolute one with a host, over HTTP or HTTPS.
  abbrev pub IsUsable : String → Type 0
  IsUsable base =
      ((configured_url env ≡ none) × (base ≡ localhost))
      ⊎ ((raw : String) × (url : Url) × (configured_url env ≡ some raw)
          × (base ≡ strip_slash raw)
          × (parse base ≡ some url)
          × (is_empty url.hostname ≡ false)
          × ((url.protocol ≡ "http:") ⊎ (url.protocol ≡ "https:")))

  -- What came back is passed on; a failure is 503 with the text of the error.
  abbrev pub Relays : Upstream → RouteAnswer → Type 0
  Relays (answered status body) a = a ≡ passed_on status body
  Relays (thrown e) a =
      (blank : Blank) × (hint : Option String) × (a ≡ refused 503 blank (format_fetch_error e) hint)

  abbrev pub IsGuarded : (String → Upstream) → String → Handled → Type 0
  IsGuarded fetch path (asked, answer) =
      ((asked ≡ none)
        × ((blank : Blank) × (error : String) × (hint : Option String) × (answer
              ≡ refused 503 blank error hint)))
      ⊎ ((base : String) × IsUsable base
          × (asked ≡ some (template (base ∷ path ∷ [])))
          × Relays (fetch (template (base ∷ path ∷ []))) answer)

  check_url-ok :
      (u base : String) (o : Option Url) (d : Bool)
      → check_url u o ≡ ok base d
      → (url : Url) × (o ≡ some url)
        × (base ≡ u)
        × (is_empty url.hostname ≡ false)
        × ((url.protocol ≡ "http:") ⊎ (url.protocol ≡ "https:"))
  unfolding check_url
  check_url-ok u base none d h = absurd (ground arith)
  check_url-ok u base (some url) d h = elim (Bool-cases (is_empty url.hostname)) [
    | inl empty ↦ absurd (ground arith)
    | inr host ↦ elim (Bool-cases (url.protocol == "http:")) [
      | inl http ↦ (url, refl, ground arith, host, inl ((eq_iff url.protocol "http:").0 http))
      | inr other ↦ elim (Bool-cases (url.protocol == "https:")) [
        | inl https ↦ (url, refl, ground arith, host, inr ((eq_iff url.protocol "https:").0 https))
        | inr neither ↦ absurd (ground arith)
      ]
    ]
  ]

  resolve-IsUsable :
      (base : String) (d : Bool)
      → resolve_dashboard_backend_base parse env ≡ ok base d
      → IsUsable base
  unfolding resolve_dashboard_backend_base
  resolve-IsUsable base d h = elim (Option-cases (configured_url env)) [
    | inl unset ↦ inl (unset, ground arith)
    | inr (raw, set) ↦
        let checked : check_url (strip_slash raw) (parse (strip_slash raw)) ≡ ok base d =
          ground arith in
        let (url, parsed, same, host, protocol) =
          check_url-ok (strip_slash raw) base (parse (strip_slash raw)) d checked in
        inr (raw, url, set, same, ap parse same ∙ parsed, host, protocol)
  ]

  forward-Relays :
      (fetched : Upstream) (blank : Blank) (hint : Thrown → Option String)
      → Relays fetched (forward blank format_fetch_error hint fetched)
  unfolding forward
  forward-Relays (answered status body) blank hint = refl
  forward-Relays (thrown e) blank hint = (blank, hint e, refl)

  module _ (fetch : String → Upstream) where
    guarded-IsGuarded :
        (hints : Hints) (blank : Blank) (path : String) (unset : Bool → Bool)
        (r : DashboardBackendBaseResult)
        → resolve_dashboard_backend_base parse env ≡ r
        → IsGuarded fetch path (guarded env hints blank path unset fetch r)
    unfolding guarded
    guarded-IsGuarded hints blank path unset (failed error) h =
        inl (refl, (blank, error, some hints.invalid, refl))
    guarded-IsGuarded hints blank path unset (ok base d) h =
        inr (base, resolve-IsUsable base d h, refl, forward-Relays _ blank _)

    -- A route that checks the backend's URL asks nothing and answers 503, or it asks its path at a usable
    -- base, once, and passes the status and the body on, or answers 503 with the text of the error. Usable is
    -- the local default where no URL is set, and otherwise the set URL alone, less a slash at its end, if it is an absolute
    -- one with a host, over HTTP or HTTPS.
    pub respond-IsGuarded :
        (route : GuardedRoute) → IsGuarded fetch (path_of route) (respond fetch route)
    unfolding get_logs get_insights get_stats get_backend_health
    respond-IsGuarded (logs qs) = guarded-IsGuarded _ _ _ _ _ refl
    respond-IsGuarded (insights qs) = guarded-IsGuarded _ _ _ _ _ refl
    respond-IsGuarded stats = guarded-IsGuarded _ _ _ _ _ refl
    respond-IsGuarded health = guarded-IsGuarded _ _ _ _ _ refl
