-- ===== src/Setup/EnvFile/Defaults.antt =====
-- setup-railway.js: what `process.env` is after loadOptionalEnvFile.
use pe_hackathon.Base.{
  ◌≡◌, refl, Option, none, some, String, List, [], ◌∷◌, ◌==◌, arith, eq_iff, if◌then◌else◌,
}
use pe_hackathon.Base.Store.{Store, get, get-put}
use pe_hackathon.Setup.EnvFile.{
  split_lines, parse_line, set_default, load_lines, load_optional_env_file,
}

-- The value of a line for a key.
abbrev pub value_for : String → Option (String × String) → Option String
value_for key none = none
value_for key (some (k, val)) = if k == key then some val else none

-- The value of the first line that has the key.
abbrev pub first_value : String → List String → Option String
first_value key [] = none
first_value key (line ∷ lines) = elim (value_for key (parse_line line)) [
  | some val ↦ some val
  | none ↦ first_value key lines
]

abbrev pub first_some : Option String → Option String → Option String
first_some none o = o
first_some (some a) o = some a

get-set_default :
    (env : Store String) (key : String) (p : Option (String × String))
    → get (set_default env p) key ≡ first_some (get env key) (value_for key p)
unfolding set_default
get-set_default env key none = ground arith
get-set_default env key (some (k, val)) = ground (arith, get-put env k key val, eq_iff k key)

first_some_assoc :
    (a b c : Option String) → first_some (first_some a b) c ≡ first_some a (first_some b c)
first_some_assoc none b c = refl
first_some_assoc (some a) b c = refl

get-load_lines :
    (lines : List String) (env : Store String) (key : String)
    → get (load_lines env lines) key ≡ first_some (get env key) (first_value key lines)
unfolding load_lines
get-load_lines [] env key = ground arith
get-load_lines (line ∷ lines) env key = ground (
  arith,
  get-load_lines lines (set_default env (parse_line line)) key,
  get-set_default env key (parse_line line),
)

-- After the file is loaded, a variable has the value that it had before, and if it had none, the
-- value of the first line of the file that gives it one: the file never overrides the environment, and a later line never an earlier one.
pub get-load_optional_env_file :
    (env : Store String) (text : String) (key : String)
    → get (load_optional_env_file env (some text)) key
      ≡ first_some (get env key) (first_value key (split_lines text))
unfolding load_optional_env_file
get-load_optional_env_file env text key = get-load_lines (split_lines text) env key
