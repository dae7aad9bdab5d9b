-- ===== src/Visibility/Graphql.antt =====
-- railway-visibility.ts: one request to Railway's GraphQL endpoint.
use pe_hackathon.Base.{
  ℕ, Bool, not, ◌&&◌, Option, none, some, String, List, [], ◌∷◌, leb, if◌then◌else◌, Outcome,
  returned, threw,
}
use pe_hackathon.Text.{template, show}
use pe_hackathon.Env.{Env, AuthHeaders, missing, get_railway_graphql_auth_headers}

-- What the endpoint answers: no connection or a body that is no JSON, or a status and a body.
pub data Reply {ℓ} (A : Type ℓ) : Type ℓ where
  unreachable : String → Reply A
  replied : (status : ℕ) → (errors : List String) → (payload : Option A) → Reply A

-- `res.ok`
abbrev pub is_ok_status : ℕ → Bool
is_ok_status status = leb 200 status && leb status 299

-- `xs.join(sep)`
unfoldable pub join : String → List String → String
join sep [] = ""
join sep (x ∷ []) = x
join sep (x ∷ y ∷ xs) = template (x ∷ sep ∷ join sep (y ∷ xs) ∷ [])

module _ {ℓ} {A : Type ℓ} where
  read_payload : List String → Option A → Outcome A
  read_payload (e ∷ es) payload = threw (join "; " (e ∷ es))
  read_payload [] none = threw "Railway API returned no data"
  read_payload [] (some a) = returned a

  read_reply : Reply A → Outcome A
  read_reply (unreachable msg) = threw msg
  read_reply (replied status errors payload) =
      if not (is_ok_status status)
      then threw (template ("Railway API HTTP " ∷ show status ∷ []))
      else read_payload errors payload

  authorised : AuthHeaders → Reply A → Outcome A
  authorised (missing msg) reply = threw msg
  authorised _ reply = read_reply reply

  -- The headers are built first, so no request is made without a token.
  unfoldable pub railway_graphql : Env → Reply A → Outcome A
  unfolding authorised read_reply read_payload join
  railway_graphql env reply = authorised (get_railway_graphql_auth_headers env) reply
