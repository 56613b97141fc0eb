-- ===== src/Text.antt =====
-- The operations of Rust's `str` that the program uses, by recursion over the characters.
pub mod Order
pub mod Splitting
pub mod Escaping
use Prim.Native.Char.{Char, code}
use Prim.Native.String
use Prim.Native.String.{[], ◌∷◌}
use federated_catalog_rs.Prelude.{
  ℕ, zero, suc, ◌+◌, ◌-◌, String, Bool, true, false, ◌&&◌, ◌||◌, Option, none, some, List, ltb, leb,
  eqb, if◌then◌else◌,
}

infixr 65 ◌+++◌
abbrev pub ◌+++◌ : String → String → String
s +++ t = String.◌++◌ s t

abbrev pub is_empty : String → Bool
is_empty [] = true
is_empty (c ∷ s) = false

-- `text.split(sep)` for a character: at least one piece.
abbrev pub push_first : Char → List String → List String
push_first c List.[] = List.◌∷◌ (c ∷ []) List.[]
push_first c (List.◌∷◌ w ws) = List.◌∷◌ (c ∷ w) ws

unfoldable pub split : ℕ → String → List String
split sep [] = List.◌∷◌ [] List.[]
split sep (c ∷ s) =
    let rest = split sep s in if eqb (code c) sep then List.◌∷◌ [] rest else push_first c rest

-- `pieces.join(glue)`
unfoldable pub join : String → List String → String
join glue List.[] = ""
join glue (List.◌∷◌ w List.[]) = w
join glue (List.◌∷◌ w (List.◌∷◌ v ws)) = w +++ glue +++ join glue (List.◌∷◌ v ws)

-- `text.strip_prefix(prefix)`
unfoldable pub strip_prefix : String → String → Option String
strip_prefix [] s = some s
strip_prefix (d ∷ p) [] = none
strip_prefix (d ∷ p) (c ∷ s) =
    let rest = strip_prefix p s in if eqb (code c) (code d) then rest else none

-- `text.replace(c, to)` for a character
unfoldable pub replace_char : ℕ → String → String → String
replace_char from to [] = []
replace_char from to (c ∷ s) =
    let rest = replace_char from to s in if eqb (code c) from then to +++ rest else c ∷ rest

abbrev begins_with : String → String → Bool
begins_with [] s = true
begins_with (d ∷ p) [] = false
begins_with (d ∷ p) (c ∷ s) = eqb (code c) (code d) && begins_with p s

-- `text.replace(pattern, to)` for a pattern that is not empty: from the left, without overlaps.
-- `skip` is what is left of the occurrence just replaced.
unfoldable pub replace_from : String → String → ℕ → String → String
replace_from pattern' to skip [] = []
replace_from pattern' to zero (c ∷ s) =
    let hit = begins_with pattern' (c ∷ s) in
    let rest = replace_from pattern' to (if hit then String.count pattern' - 1 else 0) s in
    if hit then to +++ rest else c ∷ rest
replace_from pattern' to (suc k) (c ∷ s) = replace_from pattern' to k s

unfoldable pub replace : String → String → String → String
unfolding replace_from
replace pattern' to s = replace_from pattern' to 0 s

-- `char::is_whitespace`, the code points with the property White_Space
abbrev pub is_whitespace : ℕ → Bool
is_whitespace c =
    leb 9 c && leb c 13
    || eqb c 32
    || eqb c 0x85
    || eqb c 0xa0
    || eqb c 0x1680
    || leb 0x2000 c && leb c 0x200a
    || leb 0x2028 c && leb c 0x2029
    || eqb c 0x202f
    || eqb c 0x205f
    || eqb c 0x3000

unfoldable pub trim_start : String → String
trim_start [] = []
trim_start (c ∷ s) = let rest = trim_start s in if is_whitespace (code c) then rest else c ∷ s

unfoldable pub trim_end : String → String
trim_end [] = []
trim_end (c ∷ s) =
    let rest = trim_end s in if is_whitespace (code c) && is_empty rest then [] else c ∷ rest

-- `text.trim()`
unfoldable pub trim : String → String
unfolding trim_start trim_end
trim s = trim_end (trim_start s)

abbrev ascii_lower : ℕ → ℕ
ascii_lower c = if leb b'A' c && leb c b'Z' then c + 32 else c

unfoldable pub eq_ignore_ascii_case : String → String → Bool
eq_ignore_ascii_case [] [] = true
eq_ignore_ascii_case [] (d ∷ t) = false
eq_ignore_ascii_case (c ∷ s) [] = false
eq_ignore_ascii_case (c ∷ s) (d ∷ t) =
    eqb (ascii_lower (code c)) (ascii_lower (code d)) && eq_ignore_ascii_case s t
