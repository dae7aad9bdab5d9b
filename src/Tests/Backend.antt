-- ===== src/Tests/Backend.antt =====
-- The theorem about the routes that ask the backend.
use pe_hackathon.Base.{Option, none, some, String, if◌then◌else◌, ◌==◌}
use pe_hackathon.Env.{Env}
use pe_hackathon.Feeds.FetchError.{an_error, no_cause}
use pe_hackathon.Backend.Url.{Url}
use pe_hackathon.Backend.Forward.{Upstream, answered, thrown}
use pe_hackathon.Backend.Laws.{logs, path_of, respond, IsGuarded, respond-IsGuarded}

abbrev parse : String → Option Url
parse u =
    if u == "http://backend.internal:8080"
    then some (record { hostname = "backend.internal"; protocol = "http:" })
    else none

abbrev process : Env
process key =
    if key == "DASHBOARD_BACKEND_URL" then some " http://backend.internal:8080/ " else none

abbrev network : String → Upstream
network url =
    if url == "http://backend.internal:8080/api/logs?limit=5"
    then answered 200 "[]"
    else thrown (an_error "TypeError" "fetch failed" no_cause)

respond-IsGuarded_example :
    IsGuarded parse process network
      (path_of (logs "limit=5"))
      (respond parse process network (logs "limit=5"))
respond-IsGuarded_example = respond-IsGuarded parse process network (logs "limit=5")
