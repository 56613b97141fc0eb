-- ===== src/Store.antt =====
-- crates/rdf-store/src/lib.rs: queries, the cache interface and what is common to both backends.
pub mod Paging
pub mod Contract
pub mod Lookup
pub mod Agreement
pub mod Memory
pub mod Oxigraph
pub mod Backends
pub mod Abstract
pub mod Observed
pub mod Ordering
pub mod ListStore
mod Tests
use federated_catalog_rs.Prelude.{
  ℕ, String, Bool, true, Option, none, some, List, Result, take, drop, filter, ◌==◌,
}
use federated_catalog_rs.Text.{◌+++◌}
use federated_catalog_rs.Sorting.{sort_by}
use federated_catalog_rs.Catalog.{Catalog, NodeId, node_id_eq}

pub data StoreError : Type 0 where
  backend : String → StoreError

-- its `Display`
abbrev pub store_error_to_string : StoreError → String
store_error_to_string (backend s) = "catalog store backend error: " +++ s

abbrev pub StoreResult : Type 0 → Type 0
StoreResult A = Result A StoreError

pub record CatalogQuery : Type 0 where
  pub origin_node : Option NodeId
  pub offset : ℕ
  pub limit : Option ℕ

-- `CatalogQuery::all` and `CatalogQuery::for_node`
abbrev pub all : CatalogQuery
all = record { origin_node = none; offset = 0; limit = none }

abbrev pub for_node : NodeId → CatalogQuery
for_node node = record all { origin_node = some node }

-- The trait. A method that takes the lock for writing returns the state that it leaves.
pub record CatalogCache : Type 1 where
  pub State : Type 0
  pub upsert : Catalog → State → StoreResult (Unit {0}) × State
  pub query : CatalogQuery → State → StoreResult (List Catalog)
  pub delete : NodeId → State → StoreResult Bool × State

-- `skip(offset)` and `take(limit)`
abbrev pub limited : Option ℕ → List Catalog → List Catalog
limited none cs = cs
limited (some limit) cs = take limit cs

-- The ordering and the pagination that both backends apply to their results.
unfoldable pub paginate : CatalogQuery → List Catalog → List Catalog
paginate q results = limited q.limit (drop q.offset (sort_by (λ (c : Catalog). c.id) results))

-- Whether a catalog passes the query's filter on the origin node.
abbrev pub matches : Option NodeId → Catalog → Bool
matches (some node) c = node_id_eq c.origin_node node
matches none c = true
