-- ===== src/Backend/Plain.antt =====
-- dashboard/src/app/api: errors, errors/clear, k6, prometheus and visibility/instance-stats, which ask a URL
-- that they do not check.
use pe_hackathon.Base.{
  Option, none, some, String, List, [], ◌∷◌, ◌++◌, ◌==◌, if◌then◌else◌, or_else,
}
use pe_hackathon.Base.Store.{Store, get}
use pe_hackathon.Text.{is_empty, truthy, template}
use pe_hackathon.Env.{Env}
use pe_hackathon.Proxy.Status.{strip_slash}
use pe_hackathon.Backend.Url.{Url, dashboard_backend_base}
use pe_hackathon.Backend.Forward.{
  Upstream, answered, thrown, Blank, no_fields, no_errors, no_series, not_running, refused, Handled,
  with_query, message_of, forward,
}

unfoldable pub ask_url : Blank → (String → Upstream) → String → Handled
ask_url blank fetch url = (some url, forward blank message_of (λ e. none) (fetch url))

module _ (parse : String → Option Url) (env : Env) (fetch : String → Upstream) where
  abbrev backend : String → String
  backend path = template (dashboard_backend_base parse env ∷ path ∷ [])

  unfoldable pub get_errors : String → Handled
  get_errors qs = ask_url no_errors fetch (backend (template ("/api/errors" ∷ with_query qs ∷ [])))

  unfoldable pub post_errors_clear : Handled
  post_errors_clear = ask_url no_fields fetch (backend "/api/errors/clear")

  unfoldable pub get_k6_status : Handled
  get_k6_status = ask_url not_running fetch (backend "/api/k6/status")

  unfoldable pub post_k6_stop : Handled
  post_k6_stop = ask_url no_fields fetch (backend "/api/k6/stop")

  -- A request whose body is no JSON is refused before anything is asked.
  unfoldable pub post_k6_run : (body : Upstream) → Handled
  post_k6_run (thrown e) = (none, refused 503 no_fields (message_of e) none)
  post_k6_run (answered status body) = ask_url no_fields fetch (backend "/api/k6/run")

-- The variable of `process.env` with no slash at its end, or else a fixed address.
abbrev address : Env → String → String → String
address process key fixed = elim (truthy (process key)) [ some u ↦ strip_slash u | none ↦ fixed ]

unfoldable pub prometheus_base : Env → String
prometheus_base process = address process "VISIBILITY_PROMETHEUS_URL" "http://127.0.0.1:9090"

unfoldable pub lb_base : Env → String
lb_base process = address process "LOAD_BALANCER_URL" "http://load-balancer:80"

unfoldable pub get_instance_stats : Env → (String → Upstream) → Handled
get_instance_stats process fetch =
    ask_url no_fields fetch (template (lb_base process ∷ "/api/instance-stats" ∷ []))

-- `searchParams.get(key) || fallback`
abbrev param : Store String → String → String → String
param query key fallback = or_else (truthy (get query key)) fallback

abbrev given_param : Store String → String → List (String × String)
given_param query key = elim (truthy (get query key)) [ none ↦ [] | some v ↦ (key, v) ∷ [] ]

-- The endpoint and its parameters, in their order.
unfoldable pub prometheus_request : Store String → String × List (String × String)
prometheus_request query =
    let base = ("query", param query "query" "") ∷ [] in
    if param query "type" "query_range" == "query_range"
    then (
      "query_range",
      base
          ++ (given_param query "start"
              ++ (given_param query "end" ++ ("step", param query "step" "15s") ∷ [])),
    )
    else ("query", base)

-- `print` is `URLSearchParams.toString`.
unfoldable pub get_prometheus :
    (print : List (String × String) → String) → Env → (String → Upstream) → Store String → Handled
get_prometheus print process fetch query =
    if is_empty (param query "query" "")
    then (none, refused 400 no_fields "query parameter required" none)
    else (let (endpoint, params) = prometheus_request query in
        ask_url no_series fetch
          (template (prometheus_base process ∷ "/api/v1/" ∷ endpoint ∷ "?" ∷ print params ∷ [])))
