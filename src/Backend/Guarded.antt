-- ===== src/Backend/Guarded.antt =====
-- dashboard/src/app/api: logs, logs/stats, logs/insights and health/backend, which check the URL of the
-- backend first.
use pe_hackathon.Base.{Bool, not, ◌&&◌, Option, none, some, String, [], ◌∷◌, if◌then◌else◌, is_some}
use pe_hackathon.Text.{truthy, template}
use pe_hackathon.Env.{Env}
use pe_hackathon.Feeds.FetchError.{format_fetch_error}
use pe_hackathon.Backend.Url.{
  Url, DashboardBackendBaseResult, ok, failed, is_dashboard_backend_url_configured,
  resolve_dashboard_backend_base,
}
use pe_hackathon.Backend.Forward.{
  Upstream, Blank, no_fields, no_logs, no_stats, no_insights, refused, Handled, with_query, forward,
}

-- `Boolean(runtimeEnv("RAILWAY_PROJECT_ID"))`
abbrev pub on_railway : Env → Bool
on_railway env = is_some (truthy (env "RAILWAY_PROJECT_ID"))

-- The texts of a route that help to find the fault.
pub record Hints : Type 0 where
  pub invalid : String
  pub plain : String
  pub unset : String
  pub configured : String

-- The hint where the fetch failed; `unset` says that the URL counts as not set.
unfoldable pub hint_for : Env → Hints → Bool → String
hint_for env hints unset =
    if on_railway env && unset
    then hints.unset
    else if on_railway env && is_dashboard_backend_url_configured env
    then hints.configured
    else hints.plain

-- The handler over the base: `path` with its query, and what `fetch` gives for it.
unfoldable pub guarded :
    Env
    → Hints
    → Blank
    → String
    → (Bool → Bool)
    → (String → Upstream)
    → DashboardBackendBaseResult
    → Handled
guarded env hints blank path unset fetch (failed error) =
    (none, refused 503 blank error (some hints.invalid))
guarded env hints blank path unset fetch (ok base used_default) =
    let url = template (base ∷ path ∷ []) in
    (
      some url,
      forward blank format_fetch_error (λ e. some (hint_for env hints (unset used_default)))
          (fetch url),
    )

abbrev logs_hints : Hints
logs_hints = record {
  invalid =
      "Fix DASHBOARD_BACKEND_URL on the dashboard service, redeploy, or run SYNC_VARIABLES=1 node setup-railway.js from the repo root.";
  plain =
      "Ensure dashboard-backend (FastAPI) is running and reachable. Local: port 8000; Railway: private DASHBOARD_BACKEND_URL (often :8080).";
  unset =
      "DASHBOARD_BACKEND_URL is unset — set it on the **dashboard** service (run `SYNC_VARIABLES=1 node setup-railway.js` for private URL), then redeploy.";
  configured =
      "If the error is ENOTFOUND or connection refused, confirm the **dashboard** service can reach **dashboard-backend** on the private network (same Railway project). Re-run variable sync so DASHBOARD_BACKEND_URL uses RAILWAY_PRIVATE_DOMAIN + PORT.";
}

abbrev insights_hints : Hints
insights_hints = record {
  invalid =
      "Fix DASHBOARD_BACKEND_URL on the dashboard service, redeploy, or run SYNC_VARIABLES=1 node setup-railway.js from the repo root.";
  plain =
      "Ensure dashboard-backend (FastAPI) is running and reachable. Local: port 8000; Railway: private DASHBOARD_BACKEND_URL.";
  unset =
      "DASHBOARD_BACKEND_URL is unset — set it on the **dashboard** service (run `SYNC_VARIABLES=1 node setup-railway.js` for private URL), then redeploy.";
  configured =
      "If the error is ENOTFOUND or connection refused, confirm the **dashboard** service can reach **dashboard-backend** on the private network.";
}

abbrev stats_hints : Hints
stats_hints = record {
  invalid = "Fix DASHBOARD_BACKEND_URL or run SYNC_VARIABLES=1 node setup-railway.js.";
  plain = "Ensure dashboard-backend (FastAPI) is running on port 8000 for local dev.";
  unset =
      "Set DASHBOARD_BACKEND_URL on the **dashboard** service (private URL recommended), then redeploy.";
  configured =
      "Confirm DASHBOARD_BACKEND_URL uses http://<private-domain>:<PORT> (see setup-railway.js) and dashboard-backend is running.";
}

abbrev health_hints : Hints
health_hints = record {
  invalid = "Fix DASHBOARD_BACKEND_URL or run SYNC_VARIABLES=1 node setup-railway.js.";
  plain =
      "Ensure dashboard-backend (FastAPI) is running. Local: port 8000; Railway: private URL with PORT 8080.";
  unset =
      "Set DASHBOARD_BACKEND_URL on the **dashboard** service (private URL recommended), then redeploy.";
  configured =
      "Confirm DASHBOARD_BACKEND_URL uses http://<private-domain>:<PORT> and dashboard-backend is healthy.";
}

module _ (parse : String → Option Url) (env : Env) (fetch : String → Upstream) where
  unfoldable pub get_logs : String → Handled
  get_logs qs =
      guarded env logs_hints no_logs (template ("/api/logs" ∷ with_query qs ∷ []))
        (λ used_default. used_default) fetch (resolve_dashboard_backend_base parse env)

  unfoldable pub get_insights : String → Handled
  get_insights qs =
      guarded env insights_hints no_insights (template ("/api/logs/insights" ∷ with_query qs ∷ []))
        (λ used_default. used_default) fetch (resolve_dashboard_backend_base parse env)

  unfoldable pub get_stats : Handled
  get_stats =
      guarded env stats_hints no_stats "/api/stats"
        (λ used_default. not (is_dashboard_backend_url_configured env)) fetch
        (resolve_dashboard_backend_base parse env)

  unfoldable pub get_backend_health : Handled
  get_backend_health =
      guarded env health_hints no_fields "/api/health"
        (λ used_default. not (is_dashboard_backend_url_configured env)) fetch
        (resolve_dashboard_backend_base parse env)
