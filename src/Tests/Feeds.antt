-- ===== src/Tests/Feeds.antt =====
-- The theorem about the texts of failed requests.
use pe_hackathon.Base.{◌≡◌, not, [], ◌∷◌, keep, take}
use pe_hackathon.Text.{is_empty}
use pe_hackathon.Visibility.Graphql.{join}
use pe_hackathon.Feeds.FetchError.{
  an_error, chain, first_part, format_fetch_error, format_fetch_error-chain,
}

format_fetch_error-chain_example :
    format_fetch_error
      (an_error "TypeError" "fetch failed" (chain ("" ∷ "connect ECONNREFUSED" ∷ [])))
    ≡ join " | " (
        keep
          (λ s. not (is_empty s))
          (first_part "TypeError" "fetch failed" ∷ take 6 ("" ∷ "connect ECONNREFUSED" ∷ [])))
format_fetch_error-chain_example =
    format_fetch_error-chain "TypeError" "fetch failed" ("" ∷ "connect ECONNREFUSED" ∷ [])
