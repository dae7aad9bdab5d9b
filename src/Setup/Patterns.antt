-- ===== src/Setup/Patterns.antt =====
-- setup-railway.js: what `watchPatternsEqual` compares.
use mathlib.Core.List.{Permᴰ}
use pe_hackathon.Base.{
  ◌≡◌, refl, sym, ap, ◌∙◌, ◌↔◌, true, Option, some, String, List, [], ◌∷◌, map, or_else, arith,
  eq_iff,
}
use pe_hackathon.Text.{trim}
use pe_hackathon.Text.Order.{sorted}
use pe_hackathon.Text.Order.Laws.{sorted-eq_iff_perm}
use pe_hackathon.Setup.Project.{same_texts, watch_patterns_equal}

same_texts→eq : (xs ys : List String) → same_texts xs ys ≡ true → xs ≡ ys
unfolding same_texts
same_texts→eq [] [] h = refl
same_texts→eq [] (y ∷ ys) h = ground arith
same_texts→eq (x ∷ xs) [] h = ground arith
same_texts→eq (x ∷ xs) (y ∷ ys) h = ground (arith, eq_iff x y, same_texts→eq xs ys)

pub same_texts_refl : (xs : List String) → same_texts xs xs ≡ true
unfolding same_texts
same_texts_refl [] = refl
same_texts_refl (x ∷ xs) = ground (arith, eq_iff x x, same_texts_refl xs)

-- The lists of patterns are equal for the script exactly when the patterns, without the white space
-- around them, are the same up to their order, each as often as in the other list; no list counts as the empty one.
pub watch_patterns_equal_iff_perm :
    (current : Option (List String)) (wanted : List String)
    → (watch_patterns_equal current wanted ≡ true)
      ↔ Permᴰ (map trim (or_else current [])) (map trim wanted)
unfolding watch_patterns_equal
watch_patterns_equal_iff_perm current wanted =
    let xs = map trim (or_else current []) in
    let ys = map trim wanted in
    let laws = sorted-eq_iff_perm xs ys in
    (
      λ h. laws.0 (same_texts→eq (sorted xs) (sorted ys) h),
      λ p. ap (same_texts (sorted xs)) (sym (laws.1 p)) ∙ same_texts_refl (sorted xs),
    )

pub watch_patterns_equal_refl :
    (wanted : List String) → watch_patterns_equal (some wanted) wanted ≡ true
unfolding watch_patterns_equal
watch_patterns_equal_refl wanted = same_texts_refl (sorted (map trim wanted))
