-- ===== src/Setup/IngestToken/Saved.antt =====
-- setup-railway.js: the token that is appended to the file, and the reading of the file.
use Prim.Native.String.{[], ◌∷◌, ◌++◌}
use pe_hackathon.Base.{
  ◌≡◌, refl, sym, subst, ap, ◌∙◌, inl, inr, ◌⊎◌, code, Char, Bool, true, false, not, ◌&&◌, ◌||◌,
  Option, none, some, String, List, arith, leb, eqb, ◌==◌, if◌then◌else◌, Bool-cases,
}
use pe_hackathon.Base
use pe_hackathon.Text.{
  is_empty, is_space, trim_start, trim_end, trim, starts_with, last_is, split_at,
}
use pe_hackathon.Text.Prepend.{
  prepend, prepend-nil, prepend-snoc, trim_end-prepend, template-joined,
}
use pe_hackathon.Setup.EnvFile.{
  without_cr, but_last_without_cr, split_lines, split_eq, strip_quotes, trimmed_pair, parse_line,
  token_of, first_token, read_log_ingest_token_from_file,
}
use pe_hackathon.Setup.EnvFile.Lines.{
  closed, parse_line-without_cr, split_at-prepend, split_at-IsSome, but_last-append,
  first_token-closed, first_token-append,
}
use pe_hackathon.Setup.IngestToken.{appended}

abbrev pub is_hex : Char → Bool
is_hex c = (leb 48 (code c) && leb (code c) 57) || (leb 97 (code c) && leb (code c) 102)

-- Hexadecimal digits, as `crypto.randomBytes(32).toString("hex")` gives them.
abbrev pub all_hex : String → Bool
all_hex [] = true
all_hex (c ∷ s) = is_hex c && all_hex s

-- Hexadecimal digits are no white space, no quote and no line end.
hex-space : (c : Char) → is_hex c ≡ true → is_space c ≡ false
unfolding is_space
hex-space c h = ground arith

module _ (c : Char) (s : String) (h : all_hex (c ∷ s) ≡ true) where
  hex-head : is_hex c ≡ true
  hex-head = ground arith

  hex-tail : all_hex s ≡ true
  hex-tail = ground arith

trim_end-all_hex : (s : String) → all_hex s ≡ true → trim_end s ≡ s
unfolding trim_end
trim_end-all_hex [] h = refl
trim_end-all_hex (c ∷ s) h =
    rw (trim_end-all_hex s (hex-tail c s h))
      (rw (hex-space c (hex-head c s h)) (either (is_empty s)))
  where
    either : (b : Bool) → (if b && false then [] else c ∷ s) ≡ c ∷ s
    either true = refl
    either false = refl

trim_start-all_hex : (s : String) → all_hex s ≡ true → trim_start s ≡ s
unfolding trim_start
trim_start-all_hex [] h = refl
trim_start-all_hex (c ∷ s) h = rw (hex-space c (hex-head c s h)) refl

trim-all_hex : (s : String) → all_hex s ≡ true → trim s ≡ s
unfolding trim
trim-all_hex s h = ap trim_end (trim_start-all_hex s h) ∙ trim_end-all_hex s h

strip_quotes-all_hex : (s : String) → all_hex s ≡ true → strip_quotes s ≡ s
unfolding strip_quotes
strip_quotes-all_hex [] h = refl
strip_quotes-all_hex (c ∷ s) h = ground (arith, hex-head c s h)

split_at-all_hex :
    (s cur : String) → all_hex s ≡ true → split_at "\n" cur s ≡ Base.◌∷◌ (prepend cur s) Base.[]
unfolding split_at
split_at-all_hex [] cur h = ap (λ u. Base.◌∷◌ u Base.[]) (sym (prepend-nil cur))
split_at-all_hex (c ∷ s) cur h =
    let inside : eqb (code c) 10 ≡ false = ground (arith, hex-head c s h) in
    rw inside (
      split_at-all_hex s (cur ++ (c ∷ [])) (hex-tail c s h)
      ∙ ap (λ u. Base.◌∷◌ u Base.[]) (prepend-snoc cur c s))

no-token :
    token_of
      (parse_line (without_cr "# HTTP log ingest → dashboard-backend /api/ingest (no Kafka)"))
    ≡ ""
unfolding token_of parse_line without_cr trim trim_start trim_end is_space starts_with last_is
no-token = refl

module _ (fresh : String) (some_hex : is_empty fresh ≡ false) (hex : all_hex fresh ≡ true) where
  trim-line : trim (prepend "LOG_INGEST_TOKEN=" fresh) ≡ prepend "LOG_INGEST_TOKEN=" fresh
  unfolding trim trim_start is_space
  trim-line = trim_end-prepend "LOG_INGEST_TOKEN=" fresh some_hex (trim_end-all_hex fresh hex)

  parse_line-token :
      parse_line (prepend "LOG_INGEST_TOKEN=" fresh) ≡ some ("LOG_INGEST_TOKEN", fresh)
  unfolding parse_line starts_with split_eq trimmed_pair trim
  parse_line-token = rw trim-line (
      ap (λ v. some ("LOG_INGEST_TOKEN", v))
        (ap strip_quotes (trim-all_hex fresh hex) ∙ strip_quotes-all_hex fresh hex))

  -- What the script appends, after the line break that it begins with.
  abbrev tail : String
  tail =
      prepend "# HTTP log ingest → dashboard-backend /api/ingest (no Kafka)\nLOG_INGEST_TOKEN="
        (prepend fresh (prepend "\n" ""))

  split_at-tail :
      split_at "\n" "" tail
      ≡ Base.◌∷◌ "# HTTP log ingest → dashboard-backend /api/ingest (no Kafka)"
          (Base.◌∷◌ (prepend "LOG_INGEST_TOKEN=" fresh) (Base.◌∷◌ "" Base.[]))
  unfolding split_at
  split_at-tail =
      ap (λ ss. Base.◌∷◌ "# HTTP log ingest → dashboard-backend /api/ingest (no Kafka)" ss)
        (split_at-prepend fresh "LOG_INGEST_TOKEN=" ""
          ∙ ap (λ ss. Base.◌++◌ ss (Base.◌∷◌ "" Base.[]))
              (split_at-all_hex fresh "LOG_INGEST_TOKEN=" hex))

  token_of-line : token_of (parse_line (without_cr (prepend "LOG_INGEST_TOKEN=" fresh))) ≡ fresh
  unfolding token_of
  token_of-line =
      ap token_of (parse_line-without_cr (prepend "LOG_INGEST_TOKEN=" fresh) ∙ parse_line-token)
      ∙ trim-all_hex fresh hex

  first_token-tail : first_token (but_last_without_cr (split_at "\n" "" tail)) ≡ fresh
  unfolding first_token but_last_without_cr
  first_token-tail = rw split_at-tail (rw no-token (rw token_of-line (rw some_hex refl)))

  -- The token that is appended to a file is the token that the file is read to have, where the file
  -- had no token before; the token is some hexadecimal digits, and the file any text, its last line ended or not.
  pub read-appended :
      (text : String)
      → read_log_ingest_token_from_file (some text) ≡ ""
      → read_log_ingest_token_from_file (some (appended text fresh)) ≡ fresh
  unfolding read_log_ingest_token_from_file split_lines appended
  read-appended text h =
      rw
        (template-joined (
          Base.◌∷◌ text (
            Base.◌∷◌
              "\n# HTTP log ingest → dashboard-backend /api/ingest (no Kafka)\nLOG_INGEST_TOKEN="
              (Base.◌∷◌ fresh (Base.◌∷◌ "\n" Base.[])))))
        (rw (split_at-prepend text "" tail) (
          rw
            (but_last-append (split_at "\n" "" text) (split_at "\n" "" tail)
              (split_at-IsSome "" tail))
            (first_token-append (closed (split_at "\n" "" text)) _
                (first_token-closed (split_at "\n" "" text) ∙ h)
              ∙ first_token-tail)))
