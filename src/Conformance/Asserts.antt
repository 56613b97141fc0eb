-- ===== src/Conformance/Asserts.antt =====
-- What the tests are written with: a test that panics ends there.
use federated_catalog_rs.Sorting.{sort_by}
use federated_catalog_rs.Text.{strip_prefix}
use federated_catalog_rs.Store.Contract.{is_some}
use federated_catalog_rs.Prelude.{
  ℕ, zero, suc, String, Bool, Option, none, some, List, [], ◌∷◌, ◌&&◌, ◌||◌, true, false, Result,
  ok, err, ◌==◌, if◌then◌else◌,
}

pub data Failure : Type 0 where
  panicked : Failure

abbrev pub Test : Type 0 → Type 0
Test A = Result A Failure

-- `assert!`
abbrev pub assert : Bool → Test (Unit {0})
assert b = if b then ok tt else err panicked

-- `unwrap` and `expect`
abbrev pub unwrap : {A : Type 0} {E : Type 0} → Result A E → Test A
unwrap (ok a) = ok a
unwrap (err e) = err panicked

-- `expect_err`
abbrev pub expect_err : {A : Type 0} {E : Type 0} → Result A E → Test E
expect_err (ok a) = err panicked
expect_err (err e) = ok e

abbrev pub expect_some : {A : Type 0} → Option A → Test A
expect_some none = err panicked
expect_some (some a) = ok a

-- `xs[i]`
abbrev pub index : {A : Type 0} → ℕ → List A → Test A
index i [] = err panicked
index zero (x ∷ xs) = ok x
index (suc i) (x ∷ xs) = index i xs

abbrev pub is_empty : {A : Type 0} → List A → Bool
is_empty [] = true
is_empty (x ∷ xs) = false

-- The equality of lists of texts, and of an optional text with one that is there
abbrev pub same_texts : List String → List String → Bool
same_texts [] [] = true
same_texts [] (y ∷ ys) = false
same_texts (x ∷ xs) [] = false
same_texts (x ∷ xs) (y ∷ ys) = x == y && same_texts xs ys

abbrev pub is_text : Option String → String → Bool
is_text none s = false
is_text (some t) s = t == s

-- `sort()`, on texts
abbrev pub sorted : List String → List String
sorted ids = sort_by (λ s. s) ids

-- `text.contains(part)`
unfoldable pub contains : String → String → Bool
unfolding strip_prefix
contains part String.[] = is_some (strip_prefix part String.[])
contains part (String.◌∷◌ c s) = is_some (strip_prefix part (String.◌∷◌ c s)) || contains part s
