-- ===== src/Text.antt =====
-- The operations of JavaScript's `String` that the code calls. Letters are those of ASCII: a letter
-- outside of it has no case here.
pub mod Laws
pub mod Order
pub mod Prepend
use Prim.Native.String
use Prim.Native.String.{String, [], ◌∷◌, find, len}
use pe_hackathon.Base.{
  ℕ, zero, suc, ◌+◌, ◌-◌, ◌*◌, ◌/◌, ◌%◌, Char, code, Bool, true, false, ◌&&◌, ◌||◌, Option, none,
  some, List, leb, ltb, eqb, ◌==◌, if◌then◌else◌,
}
use pe_hackathon.Base

-- A signed number: `negsuc n` is -(n + 1).
pub data ℤ : Type 0 where
  pos : ℕ → ℤ
  negsuc : ℕ → ℤ

-- `!s`
abbrev pub is_empty : String → Bool
is_empty [] = true
is_empty (c ∷ s) = false

-- `o === t`
abbrev pub equals : Option String → String → Bool
equals none t = false
equals (some s) t = s == t

-- `o || undefined`: an absent or empty text is falsy.
abbrev pub truthy : Option String → Option String
truthy none = none
truthy (some s) = if is_empty s then none else some s

-- White space and line terminators.
unfoldable pub is_space : Char → Bool
is_space c =
    (leb 9 (code c) && leb (code c) 13)
    || eqb (code c) 32
    || eqb (code c) 160
    || eqb (code c) 5760
    || (leb 8192 (code c) && leb (code c) 8202)
    || eqb (code c) 8232
    || eqb (code c) 8233
    || eqb (code c) 8239
    || eqb (code c) 8287
    || eqb (code c) 12288
    || eqb (code c) 65279

unfoldable pub trim_start : String → String
trim_start [] = []
trim_start (c ∷ s) = let rest = trim_start s in if is_space c then rest else c ∷ s

unfoldable pub trim_end : String → String
trim_end [] = []
trim_end (c ∷ s) = let rest = trim_end s in if is_empty rest && is_space c then [] else c ∷ rest

-- `s.trim()`
unfoldable pub trim : String → String
unfolding trim_start trim_end is_space
trim s = trim_end (trim_start s)

-- The character at the place that `c` has in the first text.
translate : String → String → Char → Char
translate [] to c = c
translate (x ∷ from) [] c = c
translate (x ∷ from) (y ∷ to) c = if eqb (code x) (code c) then y else translate from to c

map_chars : (Char → Char) → String → String
map_chars f [] = []
map_chars f (c ∷ s) = f c ∷ map_chars f s

abbrev small_letters : String
small_letters = "abcdefghijklmnopqrstuvwxyz"

abbrev capital_letters : String
capital_letters = "ABCDEFGHIJKLMNOPQRSTUVWXYZ"

-- `s.toLowerCase()`
unfoldable pub to_lower : String → String
unfolding translate map_chars
to_lower s = map_chars (translate capital_letters small_letters) s

-- `s.toUpperCase()`
unfoldable pub to_upper : String → String
unfolding translate map_chars
to_upper s = map_chars (translate small_letters capital_letters) s

-- `s.includes(t)`
abbrev pub includes : String → String → Bool
includes s t = leb (find s t) (len s)

-- `s.startsWith(prefix)`
unfoldable pub starts_with : String → String → Bool
starts_with s [] = true
starts_with [] (p ∷ ps) = false
starts_with (c ∷ s) (p ∷ ps) = eqb (code c) (code p) && starts_with s ps

-- `s.endsWith(q)` for a text `q` of one character.
unfoldable pub last_is : Char → String → Bool
last_is q [] = false
last_is q (c ∷ s) = if is_empty s then eqb (code c) (code q) else last_is q s

-- `s.slice(0, -1)`
unfoldable pub drop_last : String → String
drop_last [] = []
drop_last (c ∷ s) = if is_empty s then [] else c ∷ drop_last s

-- The texts between the characters `q`, of which there is one more than of these.
unfoldable pub split_at : Char → String → String → List String
split_at q cur [] = Base.◌∷◌ cur Base.[]
split_at q cur (c ∷ s) =
    let next = Base.◌∷◌ cur (split_at q "" s) in
    let longer = split_at q (String.◌++◌ cur (c ∷ [])) s in
    if eqb (code c) (code q) then next else longer

-- A template literal: the texts one after the other.
unfoldable pub template : List String → String
template Base.[] = ""
template (Base.◌∷◌ s ss) = String.◌++◌ s (template ss)

digit_value : Char → Option ℕ
digit_value c = if leb 48 (code c) && leb (code c) 57 then some (code c - 48) else none

-- The digits that a text begins with; `none` if it begins with no digit.
digits_from : Option ℕ → String → Option ℕ
digits_from acc [] = acc
digits_from acc (c ∷ s) = elim (digit_value c) [
  | none ↦ acc
  | some d ↦ digits_from (some (Base.or_else acc 0 * 10 + d)) s
]

negate : Option ℕ → Option ℤ
negate none = none
negate (some zero) = some (pos 0)
negate (some (suc n)) = some (negsuc n)

nonnegative : Option ℕ → Option ℤ
nonnegative none = none
nonnegative (some n) = some (pos n)

parse_signed : String → Option ℤ
parse_signed [] = none
parse_signed (c ∷ s) =
    if eqb (code c) b'-'
    then negate (digits_from none s)
    else if eqb (code c) b'+'
    then nonnegative (digits_from none s)
    else nonnegative (digits_from none (c ∷ s))

-- `parseInt(s, 10)`; `none` is `NaN`.
unfoldable pub parse_int : String → Option ℤ
unfolding parse_signed digits_from digit_value negate nonnegative trim_start is_space
parse_int s = parse_signed (trim_start s)

-- `Number.isFinite(n) && n >= least ? n : fallback`
abbrev pub at_least : ℕ → ℕ → Option ℤ → ℕ
at_least least fallback none = fallback
at_least least fallback (some (negsuc n)) = fallback
at_least least fallback (some (pos n)) = if leb least n then n else fallback

digit : ℕ → String
digit d =
    if eqb d 0
    then "0"
    else if eqb d 1
    then "1"
    else if eqb d 2
    then "2"
    else if eqb d 3
    then "3"
    else if eqb d 4
    then "4"
    else if eqb d 5
    then "5"
    else if eqb d 6
    then "6"
    else if eqb d 7
    then "7"
    else if eqb d 8
    then "8"
    else "9"

show_from : ℕ → ℕ → String → String
show_from zero n acc = acc
show_from (suc fuel) n acc =
    let rest = show_from fuel (n / 10) (String.◌++◌ (digit (n % 10)) acc) in
    if ltb n 10 then String.◌++◌ (digit n) acc else rest

-- `${n}`: each round drops a digit, so `n + 1` rounds are enough.
unfoldable pub show : ℕ → String
unfolding show_from digit
show n = show_from (suc n) n ""
