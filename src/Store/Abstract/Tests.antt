-- ===== src/Store/Abstract/Tests.antt =====
-- The theorem on the order of changes at two upserts of a fresh in-memory cache, which leave its map in
-- two different orders.
use federated_catalog_rs.Prelude.{◌≡◌, ◌≢◌, none, [], ◌∷◌, eq_iff, arith}
use federated_catalog_rs.Catalog.{Catalog, catalog, node_id}
use federated_catalog_rs.Store.{all}
use federated_catalog_rs.Store.Contract.{HasUniqueIds}
use federated_catalog_rs.Store.Agreement.{upsert, run, run-IsSound}
use federated_catalog_rs.Store.Memory
use federated_catalog_rs.Store.Memory.{memory, new}
use federated_catalog_rs.Store.Memory.Map.{IsKeyed}
use federated_catalog_rs.Store.Memory.Laws.{memory_laws, view_of}
use federated_catalog_rs.Store.Abstract.{changed, abstract, apply_comm}

abbrev cat_1 : Catalog
cat_1 = catalog "cat-1" (node_id "node-1")

abbrev cat_2 : Catalog
cat_2 = catalog "cat-2" (node_id "node-2")

new-IsKeyed : IsKeyed new.graphs
new-IsKeyed = record { by_origin = tt; distinct = tt }

apart : changed (upsert cat_1) ≢ changed (upsert cat_2)
apart e = ground (arith, eq_iff "node-1" "node-2")

unique : HasUniqueIds (view_of (run memory (upsert cat_1 ∷ upsert cat_2 ∷ []) new)) none
unfolding view_of run Memory.upsert Memory.insert Memory.lookup
unique c d h m k n e = ground (
  arith,
  eq_iff "node-1" c.origin_node.id,
  eq_iff "node-2" c.origin_node.id,
  eq_iff "node-1" d.origin_node.id,
  eq_iff "node-2" d.origin_node.id,
  eq_iff "cat-1" "cat-2",
)

apply_comm_example :
    (abstract memory memory_laws
        (run memory (upsert cat_1 ∷ upsert cat_2 ∷ []) new)
        (run-IsSound memory memory_laws (upsert cat_1 ∷ upsert cat_2 ∷ []) new new-IsKeyed)
      ≡ abstract memory memory_laws
          (run memory (upsert cat_2 ∷ upsert cat_1 ∷ []) new)
          (run-IsSound memory memory_laws (upsert cat_2 ∷ upsert cat_1 ∷ []) new new-IsKeyed))
    × (memory.query all (run memory (upsert cat_1 ∷ upsert cat_2 ∷ []) new)
        ≡ memory.query all (run memory (upsert cat_2 ∷ upsert cat_1 ∷ []) new))
apply_comm_example =
    apply_comm memory memory_laws (upsert cat_1) (upsert cat_2) new new-IsKeyed all apart unique
