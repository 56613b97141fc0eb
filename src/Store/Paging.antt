-- ===== src/Store/Paging.antt =====
-- What pagination does to the results of a query.
use Prim.Native.Nat.add
use Prim.Native.Nat.{min}
use mathlib.Core.List.{Memᴰ}
use federated_catalog_rs.Prelude.{
  ℕ, zero, suc, ◌+◌, ◌-◌, String, ◌≡◌, refl, ap, sym, ◌∙◌, Option, none, some, List, [], ◌∷◌, ◌++◌,
  take, drop, length, arith,
}
use federated_catalog_rs.Sorting.{insert_by, sort_by, HasDistinctKeys}
use federated_catalog_rs.Sorting.Unique.{sort_by_unique}
use federated_catalog_rs.Catalog.{Catalog, NodeId}
use federated_catalog_rs.Store.{CatalogQuery, limited, paginate}

abbrev pub catalog_id : Catalog → String
catalog_id c = c.id

abbrev pub page : Option NodeId → ℕ → Option ℕ → CatalogQuery
page origin offset limit = record { origin_node = origin; offset = offset; limit = limit }

module _ {ℓ} {A : Type ℓ} where
  drop-nil : (n : ℕ) → drop {A = A} n [] ≡ []
  drop-nil zero = refl
  drop-nil (suc n) = refl

  drop-drop : (m n : ℕ) (xs : List A) → drop n (drop m xs) ≡ drop (m + n) xs
  drop-drop zero n xs = ground arith
  drop-drop (suc m) n [] = drop-nil n ∙ sym (drop-nil (suc m + n))
  drop-drop (suc m) n (x ∷ xs) =
      drop-drop m n xs ∙ sym (ap (λ (k : ℕ). drop k (x ∷ xs)) (add.suc m n))

  take-append-drop : (n : ℕ) (xs : List A) → take n xs ++ drop n xs ≡ xs
  take-append-drop zero xs = refl
  take-append-drop (suc n) [] = refl
  take-append-drop (suc n) (x ∷ xs) = ap (◌∷◌ x) (take-append-drop n xs)

  length-take : (n : ℕ) (xs : List A) → length (take n xs) ≡ min n (length xs)
  length-take zero xs = omega arith
  length-take (suc n) [] = omega arith
  length-take (suc n) (x ∷ xs) = omega (arith, length-take n xs)

  length-drop : (n : ℕ) (xs : List A) → length (drop n xs) ≡ length xs - n
  length-drop zero xs = omega arith
  length-drop (suc n) [] = omega arith
  length-drop (suc n) (x ∷ xs) = omega (arith, length-drop n xs)

  length-insert_by :
      (key : A → String) (x : A) (xs : List A) → length (insert_by key x xs) ≡ suc (length xs)
  unfolding insert_by
  length-insert_by key x [] = refl
  length-insert_by key x (y ∷ ys) = ground (arith, length-insert_by key x ys)

  length-sort_by : (key : A → String) (xs : List A) → length (sort_by key xs) ≡ length xs
  unfolding sort_by
  length-sort_by key [] = refl
  length-sort_by key (x ∷ xs) =
      omega (arith, length-insert_by key x (sort_by key xs), length-sort_by key xs)

-- How many results a page has, of `n` from its offset on
abbrev pub page_size : Option ℕ → ℕ → ℕ
page_size none n = n
page_size (some limit) n = min limit n

-- A page has as many catalogs as there are from its offset on, none if the offset is past the end,
-- and at most its limit.
pub length-paginate :
    (q : CatalogQuery) (cs : List Catalog)
    → length (paginate q cs) ≡ page_size q.limit (length cs - q.offset)
unfolding paginate
length-paginate q cs = limited_length q.limit
  where
    rest : List Catalog
    rest = drop q.offset (sort_by catalog_id cs)

    rest_length : length rest ≡ length cs - q.offset
    rest_length =
        omega (arith, length-drop q.offset (sort_by catalog_id cs), length-sort_by catalog_id cs)

    limited_length :
        (limit : Option ℕ) → length (limited limit rest) ≡ page_size limit (length cs - q.offset)
    limited_length none = rest_length
    limited_length (some n) = length-take n rest ∙ ap (min n) rest_length

-- A page followed by all that comes after it is all that comes from the page's offset on.
pub paginate_pages :
    (o : Option NodeId) (offset limit : ℕ) (cs : List Catalog)
    → paginate (page o offset (some limit)) cs ++ paginate (page o (offset + limit) none) cs
      ≡ paginate (page o offset none) cs
unfolding paginate
paginate_pages o offset limit cs =
    ap (◌++◌ (take limit (drop offset (sort_by catalog_id cs))))
      (sym (drop-drop offset limit (sort_by catalog_id cs)))
    ∙ take-append-drop limit (drop offset (sort_by catalog_id cs))

-- With distinct ids the pages do not depend on the order in which the results were collected.
pub paginate_unique :
    (q : CatalogQuery) (xs ys : List Catalog)
    → HasDistinctKeys catalog_id xs
    → HasDistinctKeys catalog_id ys
    → ((c : Catalog) → Memᴰ c xs → Memᴰ c ys)
    → ((c : Catalog) → Memᴰ c ys → Memᴰ c xs)
    → paginate q xs ≡ paginate q ys
unfolding paginate
paginate_unique q xs ys d e f g = rw (sort_by_unique catalog_id xs ys d e f g)
