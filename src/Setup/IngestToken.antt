-- ===== src/Setup/IngestToken.antt =====
-- setup-railway.js: ensureLogIngestTokenForHttpIngest, over the texts of the two files.
pub mod Saved
use pe_hackathon.Base.{
  code, Bool, true, false, not, ◌&&◌, ◌||◌, Option, none, some, String, List, [], ◌∷◌, eqb,
  if◌then◌else◌, or_else, has, is_some,
}
use pe_hackathon.Base.Store.{Store, put}
use pe_hackathon.Text.{is_empty, trim_start, template}
use pe_hackathon.Setup.EnvFile.{read_log_ingest_token_from_file}
use pe_hackathon.Setup.Configure.{is_set}
use pe_hackathon.Setup.Plugins.{setting}

-- `.env.railway.setup` and `.env.railway.setup.example`; `none` does not exist.
pub record Files : Type 0 where
  pub setup : Option String
  pub example : Option String

-- The rest of a text after a prefix.
unfoldable pub strip_prefix : String → String → Option String
strip_prefix String.[] s = some s
strip_prefix (String.◌∷◌ p ps) String.[] = none
strip_prefix (String.◌∷◌ p ps) (String.◌∷◌ c s) =
    let rest = strip_prefix ps s in if eqb (code c) (code p) then rest else none

-- `LOG_INGEST_TOKEN\s*=` at the head of a text, and what follows it.
unfoldable pub field_here : String → Option String
field_here s = elim (strip_prefix "LOG_INGEST_TOKEN" s) [
  | none ↦ none
  | some rest ↦ strip_prefix "=" (trim_start rest)
]

-- What ends a line in a regular expression.
unfoldable pub ends_line : String → Bool
ends_line String.[] = false
ends_line (String.◌∷◌ c s) =
    eqb (code c) 10 || eqb (code c) 13 || eqb (code c) 8232 || eqb (code c) 8233

-- `/^\s*LOG_INGEST_TOKEN\s*=/m` in a text, and what follows its first match; the flag says that a
-- line begins here. White space before the name may span lines, and so may that after it.
unfoldable pub first_field : Bool → String → Option String
first_field starts String.[] = none
first_field starts (String.◌∷◌ c s) =
    let later = first_field (ends_line (String.◌∷◌ c String.[])) s in
    let here = field_here (trim_start (String.◌∷◌ c s)) in
    if starts && is_some here then here else later

-- `/^\s*LOG_INGEST_TOKEN\s*=\s*\S/m`
unfoldable pub has_value : Bool → String → Bool
has_value starts String.[] = false
has_value starts (String.◌∷◌ c s) =
    let later = has_value (ends_line (String.◌∷◌ c String.[])) s in
    let here = field_here (trim_start (String.◌∷◌ c s)) in
    starts && not (is_empty (trim_start (or_else here ""))) || later

unfoldable pub appended : String → String → String
appended text token = template (
    text ∷ "\n# HTTP log ingest → dashboard-backend /api/ingest (no Kafka)\nLOG_INGEST_TOKEN="
    ∷ token ∷ "\n" ∷ [])

default_text : String
default_text = "# Railway setup — see RAILWAY.md\nRAILWAY_API_TOKEN=\n"

-- The file that is there, or that is made from the example or from nothing.
unfoldable pub setup_text : Files → String
unfolding default_text
setup_text files = or_else files.setup (or_else files.example default_text)

-- The token is new: it is saved. A match of the field with no value behind it is followed by white
-- space alone, all of which belongs to the match, so the replacement puts the token at the end.
unfoldable pub save_token : Store String → Files → String → Store String × Files
save_token env files fresh =
    let text = setup_text files in
    let made = record files { setup = some text } in
    let from_file = read_log_ingest_token_from_file (some text) in
    if has_value true text
    then (if is_empty from_file then env else put env "LOG_INGEST_TOKEN" from_file, made)
    else if is_some (first_field true text)
    then (env, record files { setup = some (template (text ∷ fresh ∷ [])) })
    else (env, record files { setup = some (appended text fresh) })

-- The token of the environment, or else of the file.
unfoldable pub known_token : Store String → Files → Store String
known_token env files =
    let from_file = read_log_ingest_token_from_file files.setup in
    if is_empty (setting env "LOG_INGEST_TOKEN") && not (is_empty from_file)
    then put env "LOG_INGEST_TOKEN" from_file
    else env

-- `fresh` is the text of the random bytes.
unfoldable pub ensure_log_ingest_token :
    List String → Option String → Store String → Files → String → Store String × Files
ensure_log_ingest_token names kafka env files fresh =
    let known = known_token env files in
    if is_some kafka
      || is_set env "SKIP_LOG_INGEST_AUTO_TOKEN"
      || not (has names "dashboard-backend")
      || not (has names "url-shortener-a")
    then (env, files)
    else if not (is_empty (setting known "LOG_INGEST_TOKEN"))
    then (known, files)
    else save_token (put known "LOG_INGEST_TOKEN" fresh) files fresh
