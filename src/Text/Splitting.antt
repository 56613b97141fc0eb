-- ===== src/Text/Splitting.antt =====
-- Splitting a text that was put together from pieces without the separator.
use Prim.Native.Char.{Char, code}
use Prim.Native.String.{[], ◌∷◌}
use text.Mathlib.TextLemmas.{nil-append, cons-append}
use federated_catalog_rs.Prelude.{
  ℕ, String, ◌≡◌, refl, ◌≢◌, List, some, arith, Bool, true, not, ◌&&◌, eqb,
}
use federated_catalog_rs.Text.{split, strip_prefix, ◌+++◌}

-- The text has no character with this code point.
abbrev pub Lacks : ℕ → String → Type 0
Lacks k [] = Unit
Lacks k (c ∷ s) = (code c ≢ k) × Lacks k s

-- The test for it
abbrev pub lacks : ℕ → String → Bool
lacks k [] = true
lacks k (c ∷ s) = not (eqb (code c) k) && lacks k s

pub lacks-Lacks : (k : ℕ) (s : String) → lacks k s ≡ true → Lacks k s
lacks-Lacks k [] h = tt
lacks-Lacks k (c ∷ s) h = (ground arith, lacks-Lacks k s (ground arith))

pub Lacks-append : (k : ℕ) (s t : String) → Lacks k s → Lacks k t → Lacks k (s +++ t)
Lacks-append k [] t h g = rw nil-append g
Lacks-append k (c ∷ s) t (p, h) g = rw cons-append (p, Lacks-append k s t h g)

pub split-Lacks : (k : ℕ) (s : String) → Lacks k s → split k s ≡ List.◌∷◌ s List.[]
unfolding split
split-Lacks k [] h = refl
split-Lacks k (c ∷ s) (p, h) = ground (arith, split-Lacks k s h)

-- The first piece ends at the first separator.
pub split-append :
    (c : Char) (s t : String)
    → Lacks (code c) s
    → split (code c) (s +++ c ∷ t) ≡ List.◌∷◌ s (split (code c) t)
unfolding split
split-append c [] t h = rw nil-append (ground arith)
split-append c (d ∷ s) t (p, h) = rw cons-append (ground (arith, split-append c s t h))

pub strip_prefix-append : (p s : String) → strip_prefix p (p +++ s) ≡ some s
unfolding strip_prefix
strip_prefix-append [] s = rw nil-append refl
strip_prefix-append (c ∷ p) s = rw cons-append (ground (arith, strip_prefix-append p s))
