-- ===== src/Setup/EnvFile.antt =====
-- setup-railway.js: loadOptionalEnvFile and readLogIngestTokenFromFile, over the text of the file.
pub mod Defaults
pub mod Lines
use Prim.Native.String
use pe_hackathon.Base.{
  code, ◌&&◌, ◌||◌, Option, none, some, String, List, [], ◌∷◌, eqb, ◌==◌, if◌then◌else◌, is_some,
}
use pe_hackathon.Base.Store.{Store, get, put}
use pe_hackathon.Text.{is_empty, trim, starts_with, last_is, drop_last, split_at}

-- A line feed takes the carriage return before it away.
unfoldable pub without_cr : String → String
without_cr s = if last_is "\r" s then drop_last s else s

unfoldable pub but_last_without_cr : List String → List String
but_last_without_cr [] = []
but_last_without_cr (s ∷ []) = s ∷ []
but_last_without_cr (s ∷ t ∷ ss) = without_cr s ∷ but_last_without_cr (t ∷ ss)

-- `text.split(/\r?\n/)`
unfoldable pub split_lines : String → List String
unfolding but_last_without_cr without_cr
split_lines text = but_last_without_cr (split_at "\n" "" text)

-- The parts of a line before and after its first `=`; `none` where there is none, or no part before it.
unfoldable pub split_eq : String → String → Option (String × String)
split_eq key String.[] = none
split_eq key (String.◌∷◌ c s) =
    let longer = split_eq (String.◌++◌ key (String.◌∷◌ c String.[])) s in
    if eqb (code c) b'=' then (if is_empty key then none else some (key, s)) else longer

-- `val.slice(1, -1)` where the text begins and ends with the same quote.
unfoldable pub strip_quotes : String → String
strip_quotes String.[] = String.[]
strip_quotes (String.◌∷◌ q s) =
    if (eqb (code q) b'"' || eqb (code q) 39) && last_is q (String.◌∷◌ q s)
    then drop_last s
    else String.◌∷◌ q s

unfoldable pub trimmed_pair : Option (String × String) → Option (String × String)
trimmed_pair none = none
trimmed_pair (some (key, val)) = some (trim key, strip_quotes (trim val))

-- The key and the value of a line, if it has them.
unfoldable pub parse_line : String → Option (String × String)
unfolding trimmed_pair
parse_line line =
    let s = trim line in
    if is_empty s || starts_with s "#" then none else trimmed_pair (split_eq "" s)

-- `if (process.env[key] === undefined) process.env[key] = val`
set_default : Store String → Option (String × String) → Store String
set_default env none = env
set_default env (some (key, val)) = if is_some (get env key) then env else put env key val

unfoldable pub load_lines : Store String → List String → Store String
unfolding set_default
load_lines env [] = env
load_lines env (line ∷ lines) = load_lines (set_default env (parse_line line)) lines

-- `process.env` after the file, if there is one.
unfoldable pub load_optional_env_file : Store String → Option String → Store String
load_optional_env_file env none = env
load_optional_env_file env (some text) = load_lines env (split_lines text)

-- The token of a line, or the empty text.
unfoldable pub token_of : Option (String × String) → String
token_of none = ""
token_of (some (key, val)) = if key == "LOG_INGEST_TOKEN" then trim val else ""

unfoldable pub first_token : List String → String
unfolding token_of
first_token [] = ""
first_token (line ∷ lines) =
    let rest = first_token lines in
    if is_empty (token_of (parse_line line)) then rest else token_of (parse_line line)

unfoldable pub read_log_ingest_token_from_file : Option String → String
read_log_ingest_token_from_file none = ""
read_log_ingest_token_from_file (some text) = first_token (split_lines text)
