-- ===== src/Sorting.antt =====
-- The standard library's stable `sort_by` on a text key, which both caches call.
pub mod Laws
pub mod Unique
use federated_catalog_rs.Prelude.{String, ◌≡◌, Bool, true, List, [], ◌∷◌, All, if◌then◌else◌, ◌≢◌}
use federated_catalog_rs.Text.Order.{str_leb}

module _ {ℓ} {A : Type ℓ} (key : A → String) where
  unfoldable pub insert_by : A → List A → List A
  insert_by x [] = x ∷ []
  insert_by x (y ∷ ys) =
      let rest = insert_by x ys in if str_leb (key x) (key y) then x ∷ y ∷ ys else y ∷ rest

  unfoldable pub sort_by : List A → List A
  unfolding insert_by
  sort_by [] = []
  sort_by (x ∷ xs) = insert_by x (sort_by xs)

  -- Each key is at most those behind it.
  abbrev pub IsSorted : List A → Type 0
  IsSorted [] = Unit
  IsSorted (x ∷ xs) = All (λ y. str_leb (key x) (key y) ≡ true) xs × IsSorted xs

  abbrev pub HasDistinctKeys : List A → Type 0
  HasDistinctKeys [] = Unit
  HasDistinctKeys (x ∷ xs) = All (λ y. key x ≢ key y) xs × HasDistinctKeys xs
