-- ===== src/Store/Contract.antt =====
-- What a `CatalogCache` promises, stated of an abstract view: the catalog of each origin node.
-- The backends fill `IsCache`; clients such as the HTTP handlers and the crawler rest on it.
use mathlib.Core.List.{Memᴰ}
use federated_catalog_rs.Prelude.{
  String, ◌≡◌, Bool, true, false, Option, none, some, List, ok, if◌then◌else◌,
}
use federated_catalog_rs.Sorting.{HasDistinctKeys}
use federated_catalog_rs.Catalog.{Catalog, NodeId, node_id_eq}
use federated_catalog_rs.Store.{CatalogQuery, CatalogCache, paginate, matches}

abbrev pub View : Type 0
View = NodeId → Option Catalog

abbrev pub is_some {ℓ} : {A : Type ℓ} → Option A → Bool
is_some none = false
is_some (some a) = true

abbrev pub origin_id : Catalog → String
origin_id c = c.origin_node.id

abbrev pub catalog_id : Catalog → String
catalog_id c = c.id

-- The list has each catalog of the view that passes the filter, once, in some order.
pub record Enumerates (v : View) (o : Option NodeId) (xs : List Catalog) : Type 0 where
  pub held : (c : Catalog) → Memᴰ c xs → v c.origin_node ≡ some c
  pub matched : (c : Catalog) → Memᴰ c xs → matches o c ≡ true
  pub complete : (c : Catalog) → v c.origin_node ≡ some c → matches o c ≡ true → Memᴰ c xs
  pub distinct : HasDistinctKeys origin_id xs

-- No two origin nodes hold catalogs of one id, among the catalogs that pass the filter.
abbrev pub HasUniqueIds : View → Option NodeId → Type 0
HasUniqueIds v o =
    (c d : Catalog)
    → v c.origin_node ≡ some c
    → matches o c ≡ true
    → v d.origin_node ≡ some d
    → matches o d ≡ true
    → c.id ≡ d.id
    → origin_id c ≡ origin_id d

pub record IsCache (cache : CatalogCache) : Type 1 where
  pub IsSound : cache.State → Type 0
  pub view : cache.State → View
  pub view_origin :
      (s : cache.State) (n : NodeId) (c : Catalog)
      → IsSound s
      → view s n ≡ some c
      → origin_id c ≡ n.id
  pub upsert_result : (c : Catalog) (s : cache.State) → IsSound s → (cache.upsert c s).0 ≡ ok tt
  pub upsert_sound : (c : Catalog) (s : cache.State) → IsSound s → IsSound (cache.upsert c s).1
  pub view-upsert :
      (c : Catalog) (s : cache.State) (n : NodeId)
      → IsSound s
      → view (cache.upsert c s).1 n ≡ (if node_id_eq c.origin_node n then some c else view s n)
  pub delete_result :
      (k : NodeId) (s : cache.State) → IsSound s → (cache.delete k s).0 ≡ ok (is_some (view s k))
  pub delete_sound : (k : NodeId) (s : cache.State) → IsSound s → IsSound (cache.delete k s).1
  pub view-delete :
      (k : NodeId) (s : cache.State) (n : NodeId)
      → IsSound s
      → view (cache.delete k s).1 n ≡ (if node_id_eq k n then none else view s n)
  pub query_result :
      (q : CatalogQuery) (s : cache.State)
      → IsSound s
      → (xs : List Catalog) × (cache.query q s ≡ ok (paginate q xs))
        × Enumerates (view s) q.origin_node xs
