-- ===== src/Env.antt =====
-- dashboard/src/lib/watchdog-core/server-runtime-env.ts: reading environment variables.
pub mod Laws
pub mod Snapshot
use Prim.Native.String
use Prim.Native.String.{String}
use pe_hackathon.Base.{
  Char, code, Bool, true, false, not, ◌&&◌, ◌||◌, Option, none, some, List, [], ◌∷◌, eqb, ◌==◌,
  if◌then◌else◌, is_some,
}
use pe_hackathon.Base.Store.{Store, get, put}
use pe_hackathon.Text.{is_empty, equals, trim, template, last_is, drop_last}

-- What the process sees: the text of `/proc/self/environ`, if it can be read, and `process.env`.
pub record Process : Type 0 where
  pub proc_environ : Option String
  pub env : Store String

-- The clients of this file read variables through `runtimeEnv` alone.
abbrev pub Env : Type 0
Env = String → Option String

snoc : String → Char → String
snoc s c = String.◌++◌ s (String.◌∷◌ c String.[])

-- `out[line.slice(0, eq)] = line.slice(eq + 1)` if `eq = line.indexOf("=")` is positive.
add_line : Store String → String → String → Store String
add_line out key String.[] = out
add_line out key (String.◌∷◌ c line) =
    if eqb (code c) b'='
    then (if is_empty key then out else put out key line)
    else add_line out (String.◌++◌ key (String.◌∷◌ c String.[])) line

-- The loop of `parseLinuxEnviron`; `line` is the text since `start`.
parse_from : Store String → String → String → Store String
parse_from out line String.[] = add_line out "" line
parse_from out line (String.◌∷◌ c buf) =
    let next = parse_from (add_line out "" line) "" buf in
    let longer = parse_from out (snoc line c) buf in if eqb (code c) 0 then next else longer

unfoldable pub parse_linux_environ : Option String → Option (Store String)
unfolding parse_from add_line snoc
parse_linux_environ none = none
parse_linux_environ (some buf) = some (parse_from [] "" buf)

is_quote : Char → Bool
is_quote q = eqb (code q) 34 || eqb (code q) 39

unquote : String → String
unquote String.[] = String.[]
unquote (String.◌∷◌ q s) = if is_quote q && last_is q s then drop_last s else String.◌∷◌ q s

unfoldable pub normalize_env_value : String → String
unfolding unquote last_is drop_last is_quote
normalize_env_value v = trim (unquote (trim v))

-- `if (raw !== "") { const n = normalizeEnvValue(raw); if (n) return n; }`
unfoldable pub usable : String → Option String
usable raw =
    let n = normalize_env_value raw in
    if is_empty raw then none else if is_empty n then none else some n

usable_at : Option String → Option String
usable_at none = none
usable_at (some raw) = usable raw

-- The loop over the entries with `k.trim() === want`.
trimmed_match : String → Store String → Option String
trimmed_match want [] = none
trimmed_match want ((k, v) ∷ m) =
    let rest = trimmed_match want m in
    let found = if trim k == want then usable v else none in if is_some found then found else rest

-- The two passes over one set of variables.
unfoldable pub find_in : Store String → String → Option String
unfolding usable_at trimmed_match
find_in m key =
    let exact = usable_at (get m key) in if is_some exact then exact else trimmed_match (trim key) m

find_in_proc : Option (Store String) → String → Option String
find_in_proc none key = none
find_in_proc (some m) key = find_in m key

unfoldable pub runtime_env : Process → Env
unfolding find_in_proc
runtime_env p key =
    let found = find_in_proc (parse_linux_environ p.proc_environ) key in
    if is_some found then found else find_in p.env key

abbrev pub project_access_token_keys : List String
project_access_token_keys = "RAILWAY_PROJECT_TOKEN" ∷ "DASHBOARD_RAILWAY_PROJECT_TOKEN" ∷ []

abbrev pub account_bearer_token_keys : List String
account_bearer_token_keys =
    "RAILWAY_API_TOKEN" ∷ "RAILWAY_TOKEN" ∷ "DASHBOARD_RAILWAY_API_TOKEN" ∷ []

unfoldable pub debug_env_enabled : Env → Bool
debug_env_enabled env =
    equals (env "DASHBOARD_DEBUG_ENV") "1" || equals (env "DASHBOARD_DEBUG_ENV") "true"

-- `keys.some((k) => Boolean(runtimeEnv(k)))`
some_set : Env → List String → Bool
some_set env [] = false
some_set env (k ∷ ks) = elim (env k) [
  | none ↦ some_set env ks
  | some v ↦ not (is_empty v) || some_set env ks
]

unfoldable pub has_railway_graphql_credential : Env → Bool
unfolding some_set
has_railway_graphql_credential env =
    some_set env project_access_token_keys || some_set env account_bearer_token_keys

-- The header that a request carries; `missing` is the thrown error.
pub data AuthHeaders : Type 0 where
  project_access_token : String → AuthHeaders
  authorization : String → AuthHeaders
  missing : String → AuthHeaders

first_set : Env → List String → Option String
first_set env [] = none
first_set env (k ∷ ks) = elim (env k) [
  | none ↦ first_set env ks
  | some v ↦ if is_empty v then first_set env ks else some v
]

unfoldable pub get_railway_graphql_auth_headers : Env → AuthHeaders
unfolding first_set
get_railway_graphql_auth_headers env = elim (first_set env project_access_token_keys) [
  | some v ↦ project_access_token v
  | none ↦ elim (first_set env account_bearer_token_keys) [
    | some v ↦ authorization (template ("Bearer " ∷ v ∷ []))
    | none ↦ missing "Set RAILWAY_PROJECT_TOKEN or RAILWAY_API_TOKEN for Railway visibility"
  ]
]
