-- ===== src/Feeds/FetchError.antt =====
-- dashboard/src/lib/fetch-error-detail.ts and dashboard/src/lib/compose-instance.ts
use pe_hackathon.Base.{
  ℕ, zero, suc, ◌≡◌, refl, ap, Bool, not, Option, none, some, String, List, [], ◌∷◌, ◌==◌,
  if◌then◌else◌, keep, take, or_else,
}
use pe_hackathon.Text.{is_empty, template}
use pe_hackathon.Visibility.Graphql.{join}

-- `e.cause`: nothing, an error, another object with the fields that are read, or another value.
pub data Cause : Type 0 where
  no_cause : Cause
  error_cause : (message : String) → Cause → Cause
  object_cause : (syscall code errno : Option String) → Cause
  value_cause : String → Cause

-- What was thrown: an error, or another value as text.
pub data Thrown : Type 0 where
  an_error : (name message : String) → Cause → Thrown
  a_value : String → Thrown

abbrev given : String → Bool
given s = not (is_empty s)

-- `if (bit) parts.push(bit)`
bit_part : String → List String
bit_part bit = if is_empty bit then [] else bit ∷ []

-- The loop over the causes, with the rounds that are left.
unfoldable pub cause_parts : ℕ → Cause → List String
unfolding bit_part
cause_parts zero c = []
cause_parts (suc n) no_cause = []
cause_parts (suc n) (error_cause message c) = message ∷ cause_parts n c
cause_parts (suc n) (object_cause syscall code errno) =
    bit_part (join " " (keep given (or_else syscall "" ∷ or_else code "" ∷ or_else errno "" ∷ [])))
cause_parts (suc n) (value_cause s) = s ∷ []

abbrev pub first_part : String → String → String
first_part name message = if name == "AbortError" then "request timed out" else message

unfoldable pub format_fetch_error : Thrown → String
format_fetch_error (a_value s) = s
format_fetch_error (an_error name message c) =
    join " | " (keep given (first_part name message ∷ cause_parts 6 c))

unfoldable pub instance_id_from_compose_service : String → Option String
instance_id_from_compose_service service =
    if service == "url-shortener-a"
    then some "1"
    else if service == "url-shortener-b"
    then some "2"
    else none

unfoldable pub label_for_instance_id : String → String
label_for_instance_id id =
    if id == "1"
    then "Replica A (url-shortener-a)"
    else if id == "2"
    then "Replica B (url-shortener-b)"
    else template ("Instance " ∷ id ∷ [])

-- Errors that cause one another, the outermost first.
unfoldable pub chain : List String → Cause
chain [] = no_cause
chain (m ∷ ms) = error_cause m (chain ms)

cause_parts-chain : (n : ℕ) (ms : List String) → cause_parts n (chain ms) ≡ take n ms
unfolding cause_parts chain
cause_parts-chain zero ms = refl
cause_parts-chain (suc n) [] = refl
cause_parts-chain (suc n) (m ∷ ms) = ap (λ ps. m ∷ ps) (cause_parts-chain n ms)

-- The text of an error with a chain of causes is its message, or that the request timed out, and the
-- messages of the first six causes, less the empty ones.
pub format_fetch_error-chain :
    (name message : String) (causes : List String)
    → format_fetch_error (an_error name message (chain causes))
      ≡ join " | " (keep (λ s. not (is_empty s)) (first_part name message ∷ take 6 causes))
unfolding format_fetch_error
format_fetch_error-chain name message causes =
    ap (λ ps. join " | " (keep given (first_part name message ∷ ps))) (cause_parts-chain 6 causes)
