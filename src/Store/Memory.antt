-- ===== src/Store/Memory.antt =====
-- `memory::InMemoryCatalogCache` of crates/rdf-store/src/lib.rs. The map is the list of its
-- entries, in the order in which it iterates.
pub mod Map
pub mod Laws
use federated_catalog_rs.Prelude.{
  String, Bool, true, false, Option, none, some, List, [], ◌∷◌, Result, ok, filter, map,
  if◌then◌else◌, ◌==◌,
}
use federated_catalog_rs.Catalog.{Catalog, NodeId, node_id_eq}
use federated_catalog_rs.Store.Contract.{is_some}
use federated_catalog_rs.Store.{CatalogQuery, CatalogCache, StoreResult, paginate, matches}

abbrev pub HashMap : Type 0
HashMap = List (NodeId × Catalog)

-- `HashMap::insert`
unfoldable pub insert : NodeId → Catalog → HashMap → HashMap
insert k c [] = (k, c) ∷ []
insert k c ((j, d) ∷ m) =
    let rest = insert k c m in if node_id_eq j k then (k, c) ∷ m else (j, d) ∷ rest

-- `HashMap::get`, which the program does not call: the meaning of the entries
unfoldable pub lookup : NodeId → HashMap → Option Catalog
lookup k [] = none
lookup k ((j, d) ∷ m) = let rest = lookup k m in if node_id_eq j k then some d else rest

-- `HashMap::remove`: the map that is left
unfoldable pub remove : NodeId → HashMap → HashMap
remove k [] = []
remove k ((j, d) ∷ m) = let rest = remove k m in if node_id_eq j k then m else (j, d) ∷ rest

-- `HashMap::values`
abbrev pub values : HashMap → List Catalog
values m = map (λ (e : NodeId × Catalog). e.1) m

pub record InMemoryCatalogCache : Type 0 where
  pub graphs : HashMap

abbrev pub new : InMemoryCatalogCache
new = record { graphs = [] }

unfoldable pub upsert :
    Catalog → InMemoryCatalogCache → StoreResult (Unit {0}) × InMemoryCatalogCache
upsert c cache = (ok tt, record { graphs = insert c.origin_node c cache.graphs })

-- `query` on the values in the order in which the map gives them
unfoldable pub query_values : CatalogQuery → List Catalog → StoreResult (List Catalog)
query_values q cs = ok (paginate q (filter (matches q.origin_node) cs))

unfoldable pub query : CatalogQuery → InMemoryCatalogCache → StoreResult (List Catalog)
unfolding query_values
query q cache = query_values q (values cache.graphs)

unfoldable pub delete : NodeId → InMemoryCatalogCache → StoreResult Bool × InMemoryCatalogCache
delete node cache =
    (ok (is_some (lookup node cache.graphs)), record { graphs = remove node cache.graphs })

abbrev pub memory : CatalogCache
memory = record { State = InMemoryCatalogCache; upsert = upsert; query = query; delete = delete }
