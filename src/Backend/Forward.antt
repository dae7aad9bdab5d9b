-- ===== src/Backend/Forward.antt =====
-- dashboard/src/app/api: what the routes that forward a request ask for and answer.
use pe_hackathon.Base.{ℕ, Option, String, [], ◌∷◌, if◌then◌else◌}
use pe_hackathon.Text.{is_empty, template}
use pe_hackathon.Feeds.FetchError.{Thrown, an_error, a_value}

-- What `fetch` and `res.json()` give: a status with the body, or what was thrown.
pub data Upstream : Type 0 where
  answered : (status : ℕ) → (body : String) → Upstream
  thrown : Thrown → Upstream

-- The fields of an error that stand for the data of the route.
pub data Blank : Type 0 where
  no_fields : Blank
  no_logs : Blank
  no_stats : Blank
  no_insights : Blank
  no_errors : Blank
  no_series : Blank
  not_running : Blank

-- A body that was passed on, or an error.
pub data RouteAnswer : Type 0 where
  passed_on : (status : ℕ) → (body : String) → RouteAnswer
  refused : (status : ℕ) → Blank → (error : String) → (hint : Option String) → RouteAnswer

-- The URL that the handler asks, if any, and its answer.
abbrev pub Handled : Type 0
Handled = Option String × RouteAnswer

-- `e instanceof Error ? e.message : "Request failed"`
unfoldable pub message_of : Thrown → String
message_of (an_error name message cause) = message
message_of (a_value s) = "Request failed"

-- `qs ? "?" + qs : ""`
unfoldable pub with_query : String → String
with_query qs = if is_empty qs then "" else template ("?" ∷ qs ∷ [])

-- The end of a route: the status and the body as they come, or 503.
unfoldable pub forward :
    Blank → (Thrown → String) → (Thrown → Option String) → Upstream → RouteAnswer
forward blank error hint (answered status body) = passed_on status body
forward blank error hint (thrown e) = refused 503 blank (error e) (hint e)
