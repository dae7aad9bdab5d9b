-- ===== src/Setup/EnvFile/Lines.antt =====
-- setup-railway.js: the lines of a text that another text follows, and the token that they give.
use Prim.Native.String.{[], ◌∷◌, ◌++◌}
use pe_hackathon.Base.{
  ◌≡◌, refl, sym, subst, ap, ◌∙◌, inl, inr, ◌⊎◌, code, Char, Bool, true, false, not, ◌&&◌, ◌||◌,
  Option, none, some, String, List, arith, leb, eqb, ◌==◌, if◌then◌else◌, Bool-cases,
}
use pe_hackathon.Base
use pe_hackathon.Text.{is_empty, is_space, trim_start, trim_end, trim, last_is, drop_last, split_at}
use pe_hackathon.Text.Prepend.{prepend}
use pe_hackathon.Setup.EnvFile.{without_cr, but_last_without_cr, parse_line, token_of, first_token}

true-false : true ≡ false → ⊥
true-false h = absurd (ground arith)

return-space : (c : Char) → eqb (code c) 13 ≡ true → is_space c ≡ true
unfolding is_space
return-space c h = ground arith

trim_end-drop_last : (s : String) → last_is "\r" s ≡ true → trim_end (drop_last s) ≡ trim_end s
unfolding trim_end drop_last last_is
trim_end-drop_last [] h = refl
trim_end-drop_last (c ∷ []) h = rw (return-space c h) refl
trim_end-drop_last (c ∷ d ∷ s) h = rw (trim_end-drop_last (d ∷ s) h) refl

trim-drop_last : (s : String) → last_is "\r" s ≡ true → trim (drop_last s) ≡ trim s
unfolding trim trim_start drop_last last_is
trim-drop_last [] h = refl
trim-drop_last (c ∷ []) h = rw (return-space c h) refl
trim-drop_last (c ∷ d ∷ s) h = elim (Bool-cases (is_space c)) [
  | inl space ↦ rw space (trim-drop_last (d ∷ s) h)
  | inr other ↦ rw other (trim_end-drop_last (c ∷ d ∷ s) h)
]

trim-without_cr : (s : String) → trim (without_cr s) ≡ trim s
unfolding without_cr
trim-without_cr s = elim (Bool-cases (last_is "\r" s)) [
  | inl cr ↦ rw cr (trim-drop_last s cr)
  | inr other ↦ rw other refl
]

pub parse_line-without_cr : (s : String) → parse_line (without_cr s) ≡ parse_line s
unfolding parse_line
parse_line-without_cr s = rw (trim-without_cr s) refl

-- The lines of a text that another follows.
abbrev pub closed : List String → List String
closed Base.[] = Base.[]
closed (Base.◌∷◌ s ss) = Base.◌∷◌ (without_cr s) (closed ss)

pub split_at-prepend :
    (s cur t : String)
    → split_at "\n" cur (prepend s (prepend "\n" t))
      ≡ Base.◌++◌ (split_at "\n" cur s) (split_at "\n" "" t)
unfolding split_at
split_at-prepend [] cur t = refl
split_at-prepend (c ∷ s) cur t = elim (Bool-cases (eqb (code c) 10)) [
  | inl ends ↦ rw ends (ap (λ ss. Base.◌∷◌ cur ss) (split_at-prepend s "" t))
  | inr other ↦ rw other (split_at-prepend s (cur ++ (c ∷ [])) t)
]

-- A text has a last line.
abbrev pub IsSome : List String → Type 0
IsSome Base.[] = ⊥
IsSome (Base.◌∷◌ s ss) = Unit {0}

pub split_at-IsSome : (cur s : String) → IsSome (split_at "\n" cur s)
unfolding split_at
split_at-IsSome cur [] = tt
split_at-IsSome cur (c ∷ s) = elim (Bool-cases (eqb (code c) 10)) [
  | inl ends ↦ rw ends tt
  | inr other ↦ rw other (split_at-IsSome (cur ++ (c ∷ [])) s)
]

pub but_last-append :
    (ss ts : List String)
    → IsSome ts
    → but_last_without_cr (Base.◌++◌ ss ts) ≡ Base.◌++◌ (closed ss) (but_last_without_cr ts)
unfolding but_last_without_cr
but_last-append Base.[] ts h = refl
but_last-append (Base.◌∷◌ s Base.[]) Base.[] h = absurd h
but_last-append (Base.◌∷◌ s Base.[]) (Base.◌∷◌ t ts) h = refl
but_last-append (Base.◌∷◌ s (Base.◌∷◌ u ss)) ts h =
    ap (λ xs. Base.◌∷◌ (without_cr s) xs) (but_last-append (Base.◌∷◌ u ss) ts h)

-- A line gives the same token with its carriage return and without it.
pub first_token-closed :
    (ss : List String) → first_token (closed ss) ≡ first_token (but_last_without_cr ss)
unfolding first_token but_last_without_cr
first_token-closed Base.[] = refl
first_token-closed (Base.◌∷◌ s Base.[]) = rw (parse_line-without_cr s) refl
first_token-closed (Base.◌∷◌ s (Base.◌∷◌ u ss)) = rw (first_token-closed (Base.◌∷◌ u ss)) refl

pub first_token-append :
    (ss ts : List String) → first_token ss ≡ "" → first_token (Base.◌++◌ ss ts) ≡ first_token ts
unfolding first_token
first_token-append Base.[] ts h = refl
first_token-append (Base.◌∷◌ s ss) ts h = elim (Bool-cases (is_empty (token_of (parse_line s)))) [
  | inl nothing ↦
      let rest : first_token ss ≡ "" =
        ap (λ b. if b then first_token ss else token_of (parse_line s)) (sym nothing) ∙ h in
      rw nothing (first_token-append ss ts rest)
  | inr something ↦
      let empty : token_of (parse_line s) ≡ "" =
        ap (λ b. if b then first_token ss else token_of (parse_line s)) (sym something) ∙ h in
      absurd (true-false (sym (ap is_empty empty) ∙ something))
]
