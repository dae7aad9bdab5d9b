-- ===== src/Text/Prepend.antt =====
-- Texts before a text, character by character, where `++` computes at literals alone.
use Prim.Native.String.{[], ◌∷◌, ◌++◌}
use text.Mathlib.TextLemmas.{nil-append, cons-append}
use pe_hackathon.Base.{
  ◌≡◌, refl, sym, ap, ◌∙◌, code, Char, Bool, true, false, ◌||◌, Option, none, some, String, List,
  arith, eq_iff, Bool-cases, inl, inr, ℕ, suc, ◌+◌, ◌<◌, eqb, ◌==◌, or_else, is_some, if◌then◌else◌,
}
use pe_hackathon.Base
use pe_hackathon.Text.{is_empty, trim_end, template}
use pe_hackathon.Text.Laws.{size}

-- The characters of a text before another.
abbrev pub prepend : String → String → String
prepend [] t = t
prepend (c ∷ s) t = c ∷ prepend s t

pub append-prepend : (s t : String) → s ++ t ≡ prepend s t
append-prepend [] t = nil-append t
append-prepend (c ∷ s) t = cons-append c s t ∙ ap (λ u. c ∷ u) (append-prepend s t)

pub prepend-nil : (s : String) → prepend s [] ≡ s
prepend-nil [] = refl
prepend-nil (c ∷ s) = ap (λ u. c ∷ u) (prepend-nil s)

pub prepend-snoc :
    (s : String) (c : Char) (t : String) → prepend (s ++ (c ∷ [])) t ≡ prepend s (c ∷ t)
prepend-snoc s c t = ap (λ u. prepend u t) (append-prepend s (c ∷ [])) ∙ twice s
  where
    twice : (s : String) → prepend (prepend s (c ∷ [])) t ≡ prepend s (c ∷ t)
    twice [] = refl
    twice (d ∷ s) = ap (λ u. d ∷ u) (twice s)

pub is_empty-prepend : (s t : String) → is_empty t ≡ false → is_empty (prepend s t) ≡ false
is_empty-prepend [] t h = h
is_empty-prepend (c ∷ s) t h = refl

pub trim_end-prepend :
    (s t : String) → is_empty t ≡ false → trim_end t ≡ t → trim_end (prepend s t) ≡ prepend s t
unfolding trim_end
trim_end-prepend [] t h k = k
trim_end-prepend (c ∷ s) t h k = rw (trim_end-prepend s t h k) (rw (is_empty-prepend s t h) refl)

pub size-prepend : (s t : String) → size (prepend s t) ≡ size s + size t
size-prepend [] t = omega arith
size-prepend (c ∷ s) t = omega (arith, size-prepend s t)

-- The texts one after the other, character by character.
abbrev pub joined : List String → String
joined Base.[] = []
joined (Base.◌∷◌ s ss) = prepend s (joined ss)

pub template-joined : (ss : List String) → template ss ≡ joined ss
unfolding template
template-joined Base.[] = refl
template-joined (Base.◌∷◌ s ss) =
    ap (λ u. s ++ u) (template-joined ss) ∙ append-prepend s (joined ss)
