-- ===== src/Text/Order/Laws.antt =====
-- Two lists of texts sort to the same list exactly if one is a permutation of the other.
use text.Mathlib.TextEquality.{Char-path}
use mathlib.Core.List.Permᴰ
use mathlib.Core.List.{Permᴰ}
use pe_hackathon.Base.{
  ◌≡◌, refl, sym, ap₂, ◌∙◌, subst, ◌↔◌, ◌⊎◌, inl, inr, true, String, List, [], ◌∷◌, arith,
  Bool-cases,
}
use pe_hackathon.Text.Order.{text_le, sorted, insert_sorted}

text_le_total : (s t : String) → (text_le s t ≡ true) ⊎ (text_le t s ≡ true)
unfolding text_le
text_le_total String.[] t = inl refl
text_le_total (String.◌∷◌ c s) String.[] = inr refl
text_le_total (String.◌∷◌ c s) (String.◌∷◌ d t) = ground (arith, text_le_total s t)

text_le_antisymm : (s t : String) → text_le s t ≡ true → text_le t s ≡ true → s ≡ t
unfolding text_le
text_le_antisymm String.[] String.[] h k = refl
text_le_antisymm String.[] (String.◌∷◌ d t) h k = cc
text_le_antisymm (String.◌∷◌ c s) String.[] h k = cc
text_le_antisymm (String.◌∷◌ c s) (String.◌∷◌ d t) h k =
    ground (arith, text_le_antisymm s t, Char-path c d)

text_le_trans : (s t u : String) → text_le s t ≡ true → text_le t u ≡ true → text_le s u ≡ true
unfolding text_le
text_le_trans String.[] t u h k = refl
text_le_trans (String.◌∷◌ c s) String.[] u h k = cc
text_le_trans (String.◌∷◌ c s) (String.◌∷◌ d t) String.[] h k = cc
text_le_trans (String.◌∷◌ c s) (String.◌∷◌ d t) (String.◌∷◌ e u) h k =
    ground (arith, text_le_trans s t u)

insert_sorted_comm :
    (x y : String) (zs : List String)
    → insert_sorted x (insert_sorted y zs) ≡ insert_sorted y (insert_sorted x zs)
unfolding insert_sorted
insert_sorted_comm x y [] = ground (arith, text_le_total x y, text_le_antisymm x y)
insert_sorted_comm x y (z ∷ zs) = ground (
  arith,
  text_le_total x y,
  text_le_antisymm x y,
  text_le_trans x y z,
  text_le_trans y x z,
  insert_sorted_comm x y zs,
)

insert_sorted-perm : (x : String) (ys : List String) → Permᴰ (insert_sorted x ys) (x ∷ ys)
unfolding insert_sorted
insert_sorted-perm x [] = Permᴰ.refl _
insert_sorted-perm x (y ∷ ys) = elim (Bool-cases (text_le x y)) [
  | inl first ↦ rw first (Permᴰ.refl _)
  | inr later ↦
      rw later (Permᴰ.trans (Permᴰ.cons refl (insert_sorted-perm x ys)) (Permᴰ.swap refl refl))
]

sorted-perm : (xs : List String) → Permᴰ (sorted xs) xs
unfolding sorted
sorted-perm [] = Permᴰ.refl _
sorted-perm (x ∷ xs) =
    Permᴰ.trans (insert_sorted-perm x (sorted xs)) (Permᴰ.cons refl (sorted-perm xs))

perm-sorted : (xs ys : List String) → Permᴰ xs ys → sorted xs ≡ sorted ys
unfolding sorted
perm-sorted _ _ Permᴰ.nil = refl
perm-sorted _ _ (Permᴰ.cons {l₁ = xs} {l₂ = ys} e p) = ap₂ insert_sorted e (perm-sorted xs ys p)
perm-sorted _ _ (Permᴰ.swap {a} {b} {a'} {b'} {l} e f) =
    rw (e, f) (insert_sorted_comm b' a' (sorted l))
perm-sorted _ _ (Permᴰ.trans {l₁ = xs} {l₂ = ys} {l₃ = zs} p q) =
    perm-sorted xs ys p ∙ perm-sorted ys zs q

pub sorted-eq_iff_perm : (xs ys : List String) → (sorted xs ≡ sorted ys) ↔ Permᴰ xs ys
sorted-eq_iff_perm xs ys = (
  (λ e.
      Permᴰ.trans (Permᴰ.symm (sorted-perm xs))
        (subst (λ zs. Permᴰ zs ys) (sym e) (sorted-perm ys))),
  (λ p. perm-sorted xs ys p),
)
