-- ===== src/Env/Snapshot.antt =====
-- server-runtime-env.ts: getRailwayEnvDebugSnapshot, which shows what is known of the tokens.
pub mod Laws
use Prim.Native.String.{len}
use pe_hackathon.Base.{
  ℕ, ◌≡◌, refl, Bool, true, false, not, ◌&&◌, ◌||◌, Option, none, some, String, List, [], ◌∷◌, ◌++◌,
  map, ◌==◌, if◌then◌else◌, or_else, is_some, has, length, arith, eq_iff, Bool-cases, inl, inr,
}
use pe_hackathon.Base.Store.{Store, get}
use pe_hackathon.Text.{is_empty, truthy, trim, includes, template}
use pe_hackathon.Env.{
  Process, Env, parse_linux_environ, normalize_env_value, runtime_env, find_in, find_in_proc,
  usable, usable_at, trimmed_match, some_set, project_access_token_keys, account_bearer_token_keys,
  has_railway_graphql_credential,
}
use pe_hackathon.Text.Order.{sorted}

-- A name as it stands, with its value.
abbrev pub Entry : Type 0
Entry = String × String

unfoldable pub keys : Store String → List String
keys [] = []
keys ((k, v) ∷ m) = k ∷ keys m

-- `Object.entries(m).find(([k]) => k.trim() === name)`
find_trimmed : String → Store String → Option Entry
find_trimmed name [] = none
find_trimmed name ((k, v) ∷ m) = if trim k == name then some (k, v) else find_trimmed name m

-- The name itself, and else the first name that is it with spaces around.
entry_in : Store String → String → Option Entry
entry_in m name = elim (get m name) [ some v ↦ some (name, v) | none ↦ find_trimmed name m ]

entry_in_proc : Option (Store String) → String → Option Entry
entry_in_proc none name = none
entry_in_proc (some m) name = entry_in m name

-- `rawKeyMatched` and `val`
unfoldable pub token_entry : Process → String → Option Entry
unfolding entry_in_proc entry_in find_trimmed
token_entry p name = elim (entry_in_proc (parse_linux_environ p.proc_environ) name) [
  | some e ↦ some e
  | none ↦ entry_in p.env name
]

-- `val ? normalizeEnvValue(val) : ""`
unfoldable pub token_value : Option Entry → String
token_value none = ""
token_value (some (k, v)) = if is_empty v then "" else normalize_env_value v

pub record TokenNote : Type 0 where
  pub name : String
  pub present : Bool
  pub value_length : ℕ
  pub raw_key_matched : Option String

-- `rawKeyMatched && rawKeyMatched !== name`
raw_key : String → Option Entry → Option String
raw_key name none = none
raw_key name (some (k, v)) = if is_empty k || k == name then none else some k

unfoldable pub note_token : Process → String → TokenNote
unfolding raw_key
note_token p name = record {
  name = name;
  present = not (is_empty (token_value (token_entry p name)));
  value_length = len (token_value (token_entry p name));
  raw_key_matched = raw_key name (token_entry p name);
}

is_relevant : String → Bool
is_relevant t = includes t "RAILWAY" || includes t "DASHBOARD" || includes t "VISIBILITY"

key_text : String → String → String
key_text k t =
    if k == t then t else template (t ∷ " (variable name had leading/trailing spaces)" ∷ [])

-- `seen` and `relevantKeys` after more keys.
collect_keys : List String × List String → List String → List String × List String
collect_keys (seen, relevant) [] = (seen, relevant)
collect_keys (seen, relevant) (k ∷ ks) =
    let t = trim k in
    collect_keys
      (if is_relevant t && not (has seen t)
        then (seen ++ t ∷ [], relevant ++ key_text k t ∷ [])
        else (seen, relevant))
      ks

abbrev pub all_token_keys : List String
all_token_keys = project_access_token_keys ++ account_bearer_token_keys

pub record EnvSnapshot : Type 0 where
  pub platform : String
  pub linux_proc_parsed : Bool
  pub raw_proc_key_count : ℕ
  pub relevant_keys : List String
  pub tokens : List TokenNote
  pub has_credential : Bool
  pub backend_configured : Bool
  pub backend_value_length : ℕ

unfoldable pub some_present : List TokenNote → Bool
some_present [] = false
some_present (t ∷ ts) = t.present || some_present ts

proc_keys : Option (Store String) → List String
unfolding keys
proc_keys none = []
proc_keys (some m) = keys m

backend_value : Option String → String
backend_value none = ""
backend_value (some v) = if is_empty v then "" else normalize_env_value v

unfoldable pub get_railway_env_debug_snapshot : Process → String → EnvSnapshot
unfolding collect_keys is_relevant key_text proc_keys backend_value
get_railway_env_debug_snapshot p platform =
    let from_proc = parse_linux_environ p.proc_environ in
    let notes = map (note_token p) all_token_keys in
    let backend = backend_value (runtime_env p "DASHBOARD_BACKEND_URL") in
    record {
      platform = platform;
      linux_proc_parsed = is_some from_proc;
      raw_proc_key_count = length (proc_keys from_proc);
      relevant_keys =
          sorted (collect_keys (collect_keys ([], []) (proc_keys from_proc)) (keys p.env)).1;
      tokens = notes;
      has_credential = some_present notes;
      backend_configured = not (is_empty backend);
      backend_value_length = len backend;
    }
