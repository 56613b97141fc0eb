-- ===== src/Conformance/Caches.antt =====
-- The unit tests of the in-memory cache, crates/rdf-store/src/lib.rs, over any cache.
use federated_catalog_rs.Prelude.{
  String, ◌≡◌, refl, not, none, some, [], ◌∷◌, map, ok, err, length, eqb, ◌==◌, ◌>>=◌, ◌>>◌,
}
use federated_catalog_rs.Sorting.{sort_by}
use federated_catalog_rs.Text.Order.{str_leb}
use federated_catalog_rs.Catalog.{Catalog, catalog, node_id}
use federated_catalog_rs.Store.{CatalogCache, StoreResult, all, for_node, paginate}
use federated_catalog_rs.Store.Memory
use federated_catalog_rs.Store.Memory.{memory}
use federated_catalog_rs.Conformance.Asserts.{
  panicked, Test, assert, unwrap, index, is_empty, same_texts,
}

abbrev sample_catalog : String → String → Catalog
sample_catalog node id = catalog id (node_id node)

module _ (cache : CatalogCache) where
  -- `cache.upsert(..).await.unwrap()`, with the cache's state
  abbrev unwrap_state : {A : Type 0} → StoreResult A × cache.State → Test (A × cache.State)
  unwrap_state (ok a, s) = ok (a, s)
  unwrap_state (err e, s) = err panicked

  abbrev upsert : String → String → cache.State → Test cache.State
  upsert node id s = do (u, t) ← unwrap_state (cache.upsert (sample_catalog node id) s); ok t

  unfoldable pub upsert_then_query_all_returns_it : cache.State → Test (Unit {0})
  upsert_then_query_all_returns_it new = do
    s ← upsert "node-1" "cat-1" new
    results ← unwrap (cache.query all s)
    assert (eqb (length results) 1)
    first ← index 0 results
    assert (first.id == "cat-1")

  unfoldable pub upsert_replaces_prior_catalog_for_same_node : cache.State → Test (Unit {0})
  upsert_replaces_prior_catalog_for_same_node new = do
    s ← upsert "node-1" "cat-1" new
    t ← upsert "node-1" "cat-2" s
    results ← unwrap (cache.query all t)
    assert (eqb (length results) 1)
    first ← index 0 results
    assert (first.id == "cat-2")

  unfoldable pub query_for_node_filters_by_origin : cache.State → Test (Unit {0})
  query_for_node_filters_by_origin new = do
    s ← upsert "node-1" "cat-1" new
    t ← upsert "node-2" "cat-2" s
    results ← unwrap (cache.query (for_node (node_id "node-2")) t)
    assert (eqb (length results) 1)
    first ← index 0 results
    assert (first.id == "cat-2")

  unfoldable pub query_respects_offset_and_limit : cache.State → Test (Unit {0})
  query_respects_offset_and_limit new = do
    s0 ← upsert "node-0" "cat-0" new
    s1 ← upsert "node-1" "cat-1" s0
    s2 ← upsert "node-2" "cat-2" s1
    s3 ← upsert "node-3" "cat-3" s2
    s4 ← upsert "node-4" "cat-4" s3
    results ← unwrap (cache.query (record { origin_node = none; offset = 2; limit = some 2 }) s4)
    assert (same_texts (map (λ (c : Catalog). c.id) results) ("cat-2" ∷ "cat-3" ∷ []))

  unfoldable pub delete_removes_catalog_and_reports_result : cache.State → Test (Unit {0})
  delete_removes_catalog_and_reports_result new = do
    s ← upsert "node-1" "cat-1" new
    (removed, t) ← unwrap_state (cache.delete (node_id "node-1") s)
    assert removed
    results ← unwrap (cache.query all t)
    assert (is_empty results)
    (removed_again, u) ← unwrap_state (cache.delete (node_id "node-1") t)
    assert (not removed_again)

cache_tests : Unit {0}
unfolding upsert_then_query_all_returns_it upsert_replaces_prior_catalog_for_same_node
    query_for_node_filters_by_origin query_respects_offset_and_limit
    delete_removes_catalog_and_reports_result Memory.query Memory.query_values Memory.upsert
    Memory.delete sort_by str_leb paginate Memory.insert Memory.lookup Memory.remove
cache_tests = tt

memory_tests_pass :
    (upsert_then_query_all_returns_it memory Memory.new ≡ ok tt)
    × (upsert_replaces_prior_catalog_for_same_node memory Memory.new ≡ ok tt)
    × (query_for_node_filters_by_origin memory Memory.new ≡ ok tt)
    × (query_respects_offset_and_limit memory Memory.new ≡ ok tt)
    × (delete_removes_catalog_and_reports_result memory Memory.new ≡ ok tt)
unfolding cache_tests
memory_tests_pass = (refl, refl, refl, refl, refl)
