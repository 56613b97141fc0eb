-- ===== src/Store/Tests.antt =====
-- Runs of both caches on small catalogs, and each theorem at a concrete input.
use federated_catalog_rs.Prelude.{length, ◌≡◌, refl, none, some, List, [], ◌∷◌, ok, eq_iff, arith}
use federated_catalog_rs.Text.Order.{str_leb}
use federated_catalog_rs.Sorting.{sort_by}
use federated_catalog_rs.Catalog.{Catalog, catalog, node_id}
use federated_catalog_rs.Store.{all, paginate}
use federated_catalog_rs.Store.Contract.{HasUniqueIds}
use federated_catalog_rs.Store.Agreement.{upsert, delete, Change, run}
use federated_catalog_rs.Store.Paging.{page, length-paginate}
use federated_catalog_rs.Store.Memory
use federated_catalog_rs.Store.Memory.{InMemoryCatalogCache, memory, new, insert, remove, lookup}
use federated_catalog_rs.Store.Memory.Map.{IsKeyed}
use federated_catalog_rs.Store.Memory.Laws.{view_of}
use federated_catalog_rs.Store.Ordering.{query_values-tied}
use federated_catalog_rs.Store.Oxigraph
use federated_catalog_rs.Store.Oxigraph.{oxigraph}
use federated_catalog_rs.Store.Backends.{memory-oxigraph_agree}
use federated_catalog_rs.Store.ListStore.{list_store, list_store_healthy}

abbrev cat_1 : Catalog
cat_1 = catalog "cat-1" (node_id "node-1")

abbrev cat_2 : Catalog
cat_2 = catalog "cat-2" (node_id "node-2")

-- A second crawl of the first node
abbrev cat_3 : Catalog
cat_3 = catalog "cat-3" (node_id "node-1")

abbrev changes : List Change
changes = upsert cat_1 ∷ upsert cat_2 ∷ upsert cat_3 ∷ delete (node_id "node-9") ∷ []

memory_tests : Unit {0}
unfolding run Memory.upsert Memory.query Memory.delete insert remove lookup sort_by str_leb paginate
memory_tests = tt

oxigraph_tests : Unit {0}
unfolding run Oxigraph.upsert Oxigraph.query Oxigraph.delete Oxigraph.collect_results
    Oxigraph.node_iri Oxigraph.load_graph Oxigraph.load_graphs Oxigraph.collect Oxigraph.has_subject
    sort_by str_leb paginate
oxigraph_tests = tt

memory_runs : memory.query all (run memory changes new) ≡ ok (cat_2 ∷ cat_3 ∷ [])
unfolding memory_tests
memory_runs = refl

oxigraph_runs :
    (oxigraph list_store).query all (run (oxigraph list_store) changes []) ≡ ok (cat_2 ∷ cat_3 ∷ [])
unfolding oxigraph_tests
oxigraph_runs = refl

abbrev two_nodes : InMemoryCatalogCache
two_nodes = record { graphs = (node_id "node-1", cat_1) ∷ (node_id "node-2", cat_2) ∷ [] }

two_nodes-IsKeyed : IsKeyed two_nodes.graphs
two_nodes-IsKeyed = record {
  by_origin = (refl, (refl, tt));
  distinct = (((λ e. ground (arith, eq_iff "node-1" "node-2")), tt), (tt, tt));
}

length-paginate_example : length (paginate (page none 1 (some 5)) (cat_2 ∷ cat_1 ∷ [])) ≡ 1
length-paginate_example = length-paginate (page none 1 (some 5)) (cat_2 ∷ cat_1 ∷ [])

changes-HasUniqueIds : HasUniqueIds (view_of (run memory changes new)) none
unfolding memory_tests view_of
changes-HasUniqueIds c d h m k n e = ground (
  arith,
  eq_iff "node-1" c.origin_node.id,
  eq_iff "node-2" c.origin_node.id,
  eq_iff "node-1" d.origin_node.id,
  eq_iff "node-2" d.origin_node.id,
  eq_iff "cat-2" "cat-3",
)

memory-oxigraph_agree_example :
    memory.query all (run memory changes new)
    ≡ (oxigraph list_store).query all (run (oxigraph list_store) changes list_store_healthy.empty)
memory-oxigraph_agree_example =
    memory-oxigraph_agree list_store list_store_healthy changes all changes-HasUniqueIds

-- The id of the first node's catalog, from the second node
abbrev cat_1_again : Catalog
cat_1_again = catalog "cat-1" (node_id "node-2")

query_values-tied_example :
    Memory.query_values all (cat_1_again ∷ cat_1 ∷ []) ≡ ok (cat_1_again ∷ cat_1 ∷ [])
query_values-tied_example = query_values-tied "cat-1" (cat_1_again ∷ cat_1 ∷ []) (refl, (refl, tt))
