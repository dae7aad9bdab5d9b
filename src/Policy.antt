-- ===== src/Policy.antt =====
-- dashboard/src/lib/docker-chaos-policy.ts: which services the chaos actions may touch.
use pe_hackathon.Base.{
  Bool, false, not, Option, none, some, String, List, [], ◌∷◌, ◌++◌, map, if◌then◌else◌, or_else,
  has, keep,
}
use pe_hackathon.Text.Order.{sorted}
use pe_hackathon.Text.{split_at, is_empty, equals, trim, to_lower}
use pe_hackathon.Env.{Env}
use pe_hackathon.Heartbeat.{is_on, is_off}

abbrev pub blocked_services : List String
blocked_services = "dashboard" ∷ []

abbrev pub default_allowed_services : List String
default_allowed_services =
    "db" ∷ "postgres" ∷ "redis" ∷ "zookeeper" ∷ "kafka" ∷ "kafka-log-consumer" ∷ "url-shortener-a"
    ∷ "url-shortener-b" ∷ "load-balancer" ∷ "prometheus" ∷ "alertmanager" ∷ "db-backup"
    ∷ "dashboard-db" ∷ "dashboard-backend" ∷ "user-frontend" ∷ []

-- `node_env` is `process.env.NODE_ENV`.
unfoldable pub chaos_kill_enabled : Env → Option String → Bool
chaos_kill_enabled env node_env =
    let raw = trim (or_else (env "CHAOS_KILL_ENABLED") "") in
    let v = to_lower raw in
    if is_empty raw then equals node_env "development" else if is_off v then false else is_on v

-- `s.split(",")`
unfoldable pub split_commas : String → List String
split_commas s = split_at "," "" s

abbrev nonempty : String → Bool
nonempty s = not (is_empty s)

-- The members of `new Set(xs)`, in order of insertion.
distinct_from : List String → List String → List String
distinct_from seen [] = seen
distinct_from seen (x ∷ xs) = distinct_from (if has seen x then seen else seen ++ x ∷ []) xs

names_in : String → List String
names_in raw = distinct_from [] (keep nonempty (map (λ s. to_lower (trim s)) (split_commas raw)))

-- `set.size > 0 ? set : null`
set_or_null : List String → Option (List String)
set_or_null [] = none
set_or_null (x ∷ xs) = some (x ∷ xs)

unfoldable pub parse_allowed_services_override : Env → Option (List String)
unfolding names_in set_or_null distinct_from
parse_allowed_services_override env =
    let raw = trim (or_else (env "CHAOS_ALLOWED_SERVICES") "") in
    if is_empty raw then none else set_or_null (names_in raw)

unfoldable pub is_service_kill_allowed : Env → String → Bool
is_service_kill_allowed env service =
    let s = to_lower (trim service) in
    if is_empty s
    then false
    else if has blocked_services s
    then false
    else has (or_else (parse_allowed_services_override env) default_allowed_services) s

unfoldable pub list_allowed_services_for_ui : Env → List String
list_allowed_services_for_ui env =
    sorted (or_else (parse_allowed_services_override env) default_allowed_services)
