-- ===== src/Conformance/Graphs.antt =====
-- The unit tests of the Oxigraph cache, crates/rdf-store/src/lib.rs: the same ones, each on a store of
-- its own.
use federated_catalog_rs.Prelude.{◌≡◌, refl, ok, ◌>>=◌}
use federated_catalog_rs.Sorting.{sort_by}
use federated_catalog_rs.Text.Order.{str_leb}
use federated_catalog_rs.Store.{paginate}
use federated_catalog_rs.Store.Oxigraph
use federated_catalog_rs.Store.Oxigraph.{Backend, oxigraph}
use federated_catalog_rs.Store.ListStore.{list_store}
use federated_catalog_rs.Conformance.Asserts.{Test, unwrap}
use federated_catalog_rs.Conformance.Caches

-- The backend's state after `OxigraphCatalogCache::in_memory().unwrap()`
abbrev cache : Test list_store.GraphStore
cache = unwrap (Oxigraph.in_memory list_store)

unfoldable upsert_then_query_all_returns_it : Test (Unit {0})
upsert_then_query_all_returns_it =
    cache >>= Caches.upsert_then_query_all_returns_it (oxigraph list_store)

unfoldable upsert_replaces_prior_catalog_for_same_node : Test (Unit {0})
upsert_replaces_prior_catalog_for_same_node =
    cache >>= Caches.upsert_replaces_prior_catalog_for_same_node (oxigraph list_store)

unfoldable query_for_node_filters_by_origin : Test (Unit {0})
query_for_node_filters_by_origin =
    cache >>= Caches.query_for_node_filters_by_origin (oxigraph list_store)

unfoldable query_respects_offset_and_limit : Test (Unit {0})
query_respects_offset_and_limit =
    cache >>= Caches.query_respects_offset_and_limit (oxigraph list_store)

unfoldable delete_removes_catalog_and_reports_result : Test (Unit {0})
delete_removes_catalog_and_reports_result =
    cache >>= Caches.delete_removes_catalog_and_reports_result (oxigraph list_store)

graph_tests : Unit {0}
unfolding upsert_then_query_all_returns_it upsert_replaces_prior_catalog_for_same_node
    query_for_node_filters_by_origin query_respects_offset_and_limit
    delete_removes_catalog_and_reports_result Caches.upsert_then_query_all_returns_it
    Caches.upsert_replaces_prior_catalog_for_same_node Caches.query_for_node_filters_by_origin
    Caches.query_respects_offset_and_limit Caches.delete_removes_catalog_and_reports_result
    Oxigraph.in_memory Oxigraph.upsert Oxigraph.query Oxigraph.delete Oxigraph.collect_results
    Oxigraph.node_iri Oxigraph.load_graph Oxigraph.load_graphs Oxigraph.collect Oxigraph.has_subject
    sort_by str_leb paginate
graph_tests = tt

oxigraph_tests_pass :
    (upsert_then_query_all_returns_it ≡ ok tt)
    × (upsert_replaces_prior_catalog_for_same_node ≡ ok tt)
    × (query_for_node_filters_by_origin ≡ ok tt)
    × (query_respects_offset_and_limit ≡ ok tt)
    × (delete_removes_catalog_and_reports_result ≡ ok tt)
unfolding graph_tests
oxigraph_tests_pass = (refl, refl, refl, refl, refl)
