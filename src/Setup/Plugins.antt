-- ===== src/Setup/Plugins.antt =====
-- setup-railway.js: which services of the project are Postgres, Redis and Kafka, and references to
-- their variables.
use pe_hackathon.Base.{
  Bool, not, ◌&&◌, ◌||◌, Option, none, some, String, List, [], ◌∷◌, ◌==◌, if◌then◌else◌, or_else,
  has, find, keep,
}
use pe_hackathon.Base.Store.{Store, get}
use pe_hackathon.Text.{is_empty, trim, to_lower, includes, template}

unfoldable pub service_names {ℓ} : {V : Type ℓ} → Store V → List String
service_names [] = []
service_names ((name, v) ∷ m) = name ∷ service_names m

-- A value is made of texts and of references to the variables of services.
pub data Piece : Type 0 where
  literal : String → Piece
  reference : (service variable : String) → Piece

abbrev pub Value : Type 0
Value = List Piece

unfoldable pub var_ref : String → String → String
var_ref service variable = template ("${{ " ∷ service ∷ "." ∷ variable ∷ " }}" ∷ [])

unfoldable pub render : Value → String
render [] = ""
render (literal s ∷ v) = template (s ∷ render v ∷ [])
render (reference service variable ∷ v) = template (var_ref service variable ∷ render v ∷ [])

-- `(process.env.X || "").trim()`
abbrev pub setting : Store String → String → String
setting env key = trim (or_else (get env key) "")

-- `/word/i.test(name)`
abbrev pub mentions : String → String → Bool
mentions word name = includes (to_lower name) word

-- The name that is set, if it is a service; the first candidate that is one; or the first service
-- that fits.
unfoldable pub find_service : String → List String → (String → Bool) → List String → Option String
find_service explicit candidates fits names =
    if not (is_empty explicit) && has names explicit
    then some explicit
    else elim (find (has names) candidates) [ some c ↦ some c | none ↦ find fits names ]

unfoldable pub find_postgres_service_name : Store String → List String → Option String
find_postgres_service_name env names =
    find_service (setting env "RAILWAY_POSTGRES_SERVICE_NAME")
      ("Postgres" ∷ "postgres" ∷ "PostgreSQL" ∷ "postgresql" ∷ []) (mentions "postgres") names

unfoldable pub find_redis_service_name : Store String → List String → Option String
find_redis_service_name env names =
    find_service (setting env "RAILWAY_REDIS_SERVICE_NAME") ("Redis" ∷ "redis" ∷ [])
      (λ name. to_lower name == "redis" || mentions "redis" name) names

unfoldable pub find_kafka_service_name : Store String → List String → Option String
find_kafka_service_name env names =
    find_service (setting env "RAILWAY_KAFKA_SERVICE_NAME")
      ("Kafka" ∷ "kafka" ∷ "Redpanda" ∷ "redpanda" ∷ [])
      (λ name. mentions "kafka" name || mentions "redpanda" name) names

-- `others.length === 1 ? others[0] : null`
unfoldable pub the_only : List String → Option String
the_only [] = none
the_only (x ∷ []) = some x
the_only (x ∷ y ∷ ys) = none

unfoldable pub find_dashboard_postgres_service_name :
    Store String → List String → String → Option String
find_dashboard_postgres_service_name env names primary =
    let explicit = setting env "RAILWAY_DASHBOARD_POSTGRES_SERVICE_NAME" in
    if not (is_empty explicit) && has names explicit
    then some explicit
    else elim (find
        (λ name. not (name == primary) && (mentions "dashboard" name && mentions "postgres" name))
        names) [
          | some name ↦ some name
          | none ↦ the_only (keep (λ n. mentions "postgres" n && not (n == primary)) names)
        ]

-- `(process.env.RAILWAY_KAFKA_BOOTSTRAP_VAR || "KAFKA_URL").trim() || "KAFKA_URL"`
unfoldable pub kafka_bootstrap_ref : Store String → String → Value
kafka_bootstrap_ref env kafka =
    let set = setting env "RAILWAY_KAFKA_BOOTSTRAP_VAR" in
    reference kafka (if is_empty set then "KAFKA_URL" else set) ∷ []
