-- ===== src/Backend/Url.antt =====
-- dashboard/src/lib/dashboard-backend-url.ts
use pe_hackathon.Base.{
  Bool, true, false, not, ◌&&◌, Option, none, some, String, [], ◌∷◌, ◌==◌, if◌then◌else◌, is_some,
}
use pe_hackathon.Text.{is_empty, truthy, trim, template}
use pe_hackathon.Env.{Env}
use pe_hackathon.Proxy.Status.{strip_slash, slice_to}

-- The parts that are read of a `URL`.
pub record Url : Type 0 where
  pub hostname : String
  pub protocol : String

pub data DashboardBackendBaseResult : Type 0 where
  ok : (base : String) → (used_default_localhost : Bool) → DashboardBackendBaseResult
  failed : (error : String) → DashboardBackendBaseResult

abbrev pub localhost : String
localhost = "http://127.0.0.1:8000"

-- `runtimeEnv("DASHBOARD_BACKEND_URL")?.trim()`, if it is not empty.
abbrev pub configured_url : Env → Option String
configured_url env = elim (env "DASHBOARD_BACKEND_URL") [
  | none ↦ none
  | some raw ↦ truthy (some (trim raw))
]

unfoldable pub is_dashboard_backend_url_configured : Env → Bool
is_dashboard_backend_url_configured env = is_some (configured_url env)

-- What `new URL(u)` gave; `none` where it threw.
unfoldable pub check_url : String → Option Url → DashboardBackendBaseResult
check_url u none = failed (
    template (
      "DASHBOARD_BACKEND_URL is not a valid absolute URL (first 120 chars): "
      ∷ slice_to 120 u
      ∷ []))
check_url u (some parsed) =
    if is_empty parsed.hostname
    then failed
        "DASHBOARD_BACKEND_URL has no hostname (Railway variable reference may be empty — use private URL: http://${{dashboard-backend.RAILWAY_PRIVATE_DOMAIN}}:${{dashboard-backend.PORT}} or fix the service name)."
    else if not (parsed.protocol == "http:") && not (parsed.protocol == "https:")
    then failed "DASHBOARD_BACKEND_URL must start with http:// or https://"
    else ok u false

-- `parse` is `new URL`; `none` where it throws.
module _ (parse : String → Option Url) (env : Env) where
  unfoldable pub resolve_dashboard_backend_base : DashboardBackendBaseResult
  resolve_dashboard_backend_base = elim (configured_url env) [
    | none ↦ ok localhost true
    | some raw ↦ check_url (strip_slash raw) (parse (strip_slash raw))
  ]

  unfoldable pub dashboard_backend_base : String
  dashboard_backend_base = elim resolve_dashboard_backend_base [
    | ok base used_default ↦ base
    | failed error ↦ localhost
  ]
