-- ===== src/Text/Order.antt =====
-- `xs.sort()` of texts, in the order of their characters.
pub mod Laws
use Prim.Native.String.{String, [], ◌∷◌}
use pe_hackathon.Base.{code, Bool, true, false, List, ltb, eqb, if◌then◌else◌}
use pe_hackathon.Base

unfoldable pub text_le : String → String → Bool
text_le [] t = true
text_le (c ∷ s) [] = false
text_le (c ∷ s) (d ∷ t) =
    let rest = text_le s t in
    if ltb (code c) (code d) then true else if eqb (code c) (code d) then rest else false

unfoldable pub insert_sorted : String → List String → List String
insert_sorted x Base.[] = Base.◌∷◌ x Base.[]
insert_sorted x (Base.◌∷◌ y ys) =
    let later = Base.◌∷◌ y (insert_sorted x ys) in
    if text_le x y then Base.◌∷◌ x (Base.◌∷◌ y ys) else later

unfoldable pub sorted : List String → List String
unfolding insert_sorted
sorted Base.[] = Base.[]
sorted (Base.◌∷◌ x xs) = insert_sorted x (sorted xs)
