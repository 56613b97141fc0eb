-- ===== src/Store/Ordering.antt =====
-- How the order in which the map iterates shows in the results of the in-memory cache.
use mathlib.Core.List.{Memᴰ}
use federated_catalog_rs.Prelude.{
  ◌≡◌, ap, refl, sym, ◌∙◌, subst, String, All, none, ◌∷◌, List, [], filter, ok, true,
}
use federated_catalog_rs.Text.Order.{str_leb, str_leb_refl}
use federated_catalog_rs.Sorting.{HasDistinctKeys, sort_by, insert_by}
use federated_catalog_rs.Catalog.{Catalog}
use federated_catalog_rs.Store.{CatalogQuery, matches, paginate, all}
use federated_catalog_rs.Store.Contract.{catalog_id}
use federated_catalog_rs.Store.Paging.{paginate_unique}
use federated_catalog_rs.Store.Memory.{query_values}
use federated_catalog_rs.Store.Memory.Laws.{
  Memᴰ-filter, filter-Memᴰ, filter_holds, filter-HasDistinctKeys,
}
use federated_catalog_rs.Sorting.Unique.{All-Memᴰ}

-- Where all catalog ids differ, the results are the same for every order of the same values.
pub query_values_unique :
    (q : CatalogQuery) (xs ys : List Catalog)
    → HasDistinctKeys catalog_id xs
    → HasDistinctKeys catalog_id ys
    → ((c : Catalog) → Memᴰ c xs → Memᴰ c ys)
    → ((c : Catalog) → Memᴰ c ys → Memᴰ c xs)
    → query_values q xs ≡ query_values q ys
unfolding query_values
query_values_unique q xs ys d e f g =
    let p = matches q.origin_node in
    ap ok (
      paginate_unique q (filter p xs) (filter p ys) (filter-HasDistinctKeys p catalog_id xs d)
        (filter-HasDistinctKeys p catalog_id ys e)
        (λ c m.
          filter-Memᴰ p ys (f c (Memᴰ-filter p xs m))
            (All-Memᴰ (λ c'. p c' ≡ true) _ (filter_holds p xs) m))
        (λ c m.
          filter-Memᴰ p xs (g c (Memᴰ-filter p ys m))
            (All-Memᴰ (λ c'. p c' ≡ true) _ (filter_holds p ys) m)))

insert_by-tied :
    (id : String) (c : Catalog) (xs : List Catalog)
    → c.id ≡ id
    → All (λ (d : Catalog). d.id ≡ id) xs
    → insert_by catalog_id c xs ≡ c ∷ xs
unfolding insert_by
insert_by-tied id c [] e h = refl
insert_by-tied id c (d ∷ xs) e (f, h) =
    let least : str_leb c.id d.id ≡ true =
      subst (λ s. str_leb c.id s ≡ true) (e ∙ sym f) (str_leb_refl c.id) in
    rw least refl

sort_by-tied :
    (id : String) (xs : List Catalog)
    → All (λ (d : Catalog). d.id ≡ id) xs
    → sort_by catalog_id xs ≡ xs
unfolding sort_by
sort_by-tied id [] h = refl
sort_by-tied id (c ∷ xs) (e, h) = rw (sort_by-tied id xs h) (insert_by-tied id c xs e h)

filter-all : (xs : List Catalog) → filter (matches none) xs ≡ xs
filter-all [] = refl
filter-all (c ∷ xs) = ap (◌∷◌ c) (filter-all xs)

-- Catalogs of one id come out of a query for all in the order in which the map iterates over them,
-- whatever that is.
pub query_values-tied :
    (id : String) (cs : List Catalog)
    → All (λ (c : Catalog). c.id ≡ id) cs
    → query_values all cs ≡ ok cs
unfolding query_values paginate
query_values-tied id cs h = ap ok (rw (filter-all cs) (sort_by-tied id cs h))
