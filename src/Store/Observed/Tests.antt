-- ===== src/Store/Observed/Tests.antt =====
-- The theorems on what is observed of the caches, after two upserts and a delete.
use federated_catalog_rs.Prelude.{refl, List, [], ◌∷◌}
use federated_catalog_rs.Catalog.{catalog, node_id}
use federated_catalog_rs.Store.Agreement.{Change, upsert, delete}
use federated_catalog_rs.Store.Memory.{memory, new}
use federated_catalog_rs.Store.Oxigraph.{oxigraph, in_memory}
use federated_catalog_rs.Store.ListStore.{list_store, list_store_healthy}
use federated_catalog_rs.Store.Observed.{Observed, memory-Observed, oxigraph-Observed}

abbrev changes : List Change
changes =
    upsert (catalog "cat-1" (node_id "node-1"))
    ∷ upsert (catalog "cat-2" (node_id "node-2"))
    ∷ delete (node_id "node-1")
    ∷ []

memory-Observed_example : Observed memory new changes
memory-Observed_example = memory-Observed changes

oxigraph-Observed_example : Observed (oxigraph list_store) [] changes
unfolding in_memory
oxigraph-Observed_example = oxigraph-Observed list_store list_store_healthy [] changes refl
