-- ===== src/Text/Order.antt =====
-- `Ord` of `str`: lexicographic by code point, which is the order of the UTF-8 bytes.
use Prim.Native.Char.{code}
use Prim.Native.Nat.{compare, Ordering}
use Prim.Native.String.{[], ◌∷◌}
use text.Mathlib.TextEquality.{Char-path}
use federated_catalog_rs.Prelude.{String, ◌≡◌, refl, ◌⊎◌, inl, inr, Bool, true, false, arith}

-- `s <= t`
unfoldable pub str_leb : String → String → Bool
str_leb [] t = true
str_leb (c ∷ s) [] = false
str_leb (c ∷ s) (d ∷ t) = elim (compare (code c) (code d)) [
  | Ordering.lt ↦ true
  | Ordering.eq ↦ str_leb s t
  | Ordering.gt ↦ false
]

pub str_leb_total : (s t : String) → (str_leb s t ≡ true) ⊎ (str_leb t s ≡ true)
unfolding str_leb
str_leb_total [] t = inl refl
str_leb_total (c ∷ s) [] = inr refl
str_leb_total (c ∷ s) (d ∷ t) = ground (arith, str_leb_total s t)

pub str_leb_trans : (s t u : String) → str_leb s t ≡ true → str_leb t u ≡ true → str_leb s u ≡ true
unfolding str_leb
str_leb_trans [] t u h k = refl
str_leb_trans (c ∷ s) [] u h k = ground arith
str_leb_trans (c ∷ s) (d ∷ t) [] h k = ground arith
str_leb_trans (c ∷ s) (d ∷ t) (e ∷ u) h k = ground (arith, str_leb_trans s t u)

pub str_leb_antisymm : (s t : String) → str_leb s t ≡ true → str_leb t s ≡ true → s ≡ t
unfolding str_leb
str_leb_antisymm [] [] h k = refl
str_leb_antisymm [] (d ∷ t) h k = ground arith
str_leb_antisymm (c ∷ s) [] h k = ground arith
str_leb_antisymm (c ∷ s) (d ∷ t) h k = ground (arith, str_leb_antisymm s t, Char-path c d)

pub str_leb_refl : (s : String) → str_leb s s ≡ true
str_leb_refl s = ground (arith, str_leb_total s s)
