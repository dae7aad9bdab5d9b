-- ===== src/Text/Laws.antt =====
-- Trimming a text twice changes nothing more, and another letter case does not change its size.
use Prim.Native.String.{String, [], ◌∷◌}
use pe_hackathon.Base.{ℕ, suc, Char, ◌≡◌, refl, ap, ◌∙◌, inl, inr, false, ◌&&◌, arith, Bool-cases}
use pe_hackathon.Text.{is_empty, is_space, trim_start, trim_end, trim, map_chars, to_lower}

trim_end_idem : (s : String) → trim_end (trim_end s) ≡ trim_end s
unfolding trim_end
trim_end_idem [] = refl
trim_end_idem (c ∷ s) = elim (Bool-cases (is_empty (trim_end s) && is_space c)) [
  | inl gone ↦ rw (gone, trim_end) refl
  | inr kept ↦ rw (kept, trim_end) (rw (trim_end_idem s) (rw kept))
]

-- A text that begins with no space.
abbrev IsFlush : String → Type 0
IsFlush [] = Unit
IsFlush (c ∷ s) = is_space c ≡ false

trim_start-IsFlush : (s : String) → IsFlush (trim_start s)
unfolding trim_start
trim_start-IsFlush [] = tt
trim_start-IsFlush (c ∷ s) = elim (Bool-cases (is_space c)) [
  | inl space ↦ rw space (trim_start-IsFlush s)
  | inr other ↦ rw other other
]

trim_start-trim_end : (s : String) → IsFlush s → trim_start (trim_end s) ≡ trim_end s
unfolding trim_start trim_end
trim_start-trim_end [] h = refl
trim_start-trim_end (c ∷ s) h = ground arith

pub trim_idem : (s : String) → trim (trim s) ≡ trim s
unfolding trim
trim_idem s =
    ap trim_end (trim_start-trim_end (trim_start s) (trim_start-IsFlush s))
    ∙ trim_end_idem (trim_start s)

-- The number of characters, counted one by one.
abbrev pub size : String → ℕ
size [] = 0
size (c ∷ s) = suc (size s)

size-map_chars : (f : Char → Char) (s : String) → size (map_chars f s) ≡ size s
unfolding map_chars
size-map_chars f [] = refl
size-map_chars f (c ∷ s) = ap suc (size-map_chars f s)

pub size-to_lower : (s : String) → size (to_lower s) ≡ size s
unfolding to_lower
size-to_lower s = size-map_chars _ s
