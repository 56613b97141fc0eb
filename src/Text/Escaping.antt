-- ===== src/Text/Escaping.antt =====
-- Escaping one character by a code, and undoing it.
use Prim.Native.Char.{Char, code}
use Prim.Native.String.{[], ◌∷◌}
use text.Mathlib.TextEquality.{Char-path}
use text.Mathlib.TextLemmas.{nil-append, cons-append}
use federated_catalog_rs.Prelude.{String, ◌≡◌, refl, ap, arith, eqb, inl, inr, Bool-cases, ◌∙◌}
use federated_catalog_rs.Text.{replace_char, replace, ◌+++◌}
use federated_catalog_rs.Text.Splitting.{Lacks}

-- A text without the first character of the pattern is left alone.
pub replace-Lacks : (d : Char) (p to s : String) → Lacks (code d) s → replace (d ∷ p) to s ≡ s
unfolding replace
replace-Lacks d p to [] h = refl
replace-Lacks d p to (c ∷ s) (q, h) = ground (arith, replace-Lacks d p to s h)

pub escaped_append : (t : String) → "%3A" +++ t ≡ "%" ∷ "3" ∷ "A" ∷ t
escaped_append t =
    cons-append "%" "3A" t
    ∙ ap (◌∷◌ "%")
        (cons-append "3" "A" t ∙ ap (◌∷◌ "3") (cons-append "A" "" t ∙ ap (◌∷◌ "A") (nil-append t)))

pub colon_append : (t : String) → ":" +++ t ≡ ":" ∷ t
colon_append t = cons-append ":" "" t ∙ ap (◌∷◌ ":") (nil-append t)

-- `%3A` for `:`, and back, on a text that has no `%`.
pub replace-replace_char :
    (s : String) → Lacks b'%' s → replace "%3A" ":" (replace_char b':' "%3A" s) ≡ s
unfolding replace replace_char
replace-replace_char [] h = refl
replace-replace_char (c ∷ s) (q, h) = elim (Bool-cases (eqb (code c) b':')) [
  | inl e ↦
      rw (e, escaped_append, colon_append)
        (cc (replace-replace_char s h, Char-path c ":" (ground arith)))
  | inr e ↦ rw e (ground (arith, replace-replace_char s h))
]

-- The escaped text has no `:`.
pub Lacks-replace_char : (s : String) → Lacks b':' (replace_char b':' "%3A" s)
unfolding replace_char
Lacks-replace_char [] = tt
Lacks-replace_char (c ∷ s) = elim (Bool-cases (eqb (code c) b':')) [
  | inl e ↦
      rw (e, escaped_append) (ground arith, (ground arith, (ground arith, Lacks-replace_char s)))
  | inr e ↦ rw e (ground arith, Lacks-replace_char s)
]
