-- ===== src/Store/Backends.antt =====
-- The two backends, side by side.
use federated_catalog_rs.Prelude.{◌≡◌, refl, List, [], ◌∷◌, none, sym, ◌∙◌, ok, if◌then◌else◌}
use federated_catalog_rs.Catalog.{Catalog, NodeId, node_id_eq}
use federated_catalog_rs.Store.{CatalogQuery, for_node}
use federated_catalog_rs.Store.Contract.{HasUniqueIds, is_some}
use federated_catalog_rs.Store.Agreement.{Change, run, query-agree}
use federated_catalog_rs.Store.Lookup.{to_list, query-for_node, query-upsert, query-delete}
use federated_catalog_rs.Store.Memory.{
  InMemoryCatalogCache, new, lookup, memory, upsert, query, delete,
}
use federated_catalog_rs.Store.Memory.Map.{IsKeyed}
use federated_catalog_rs.Store.Memory.Laws.{memory_laws, view_of}
use federated_catalog_rs.Store.Oxigraph.{Backend, oxigraph}
use federated_catalog_rs.Store.Oxigraph.Healthy.{IsHealthy}
use federated_catalog_rs.Store.Oxigraph.Laws.{oxigraph_laws, empty-IsSound, view-empty}

pub new-IsKeyed : IsKeyed new.graphs
new-IsKeyed = record { by_origin = tt; distinct = tt }

pub view-new : (n : NodeId) → view_of new n ≡ none
unfolding view_of lookup
view-new n = refl

-- After the same upserts and deletes on a fresh cache, the in-memory cache and the Oxigraph cache
-- answer every query alike, provided that no two of the catalogs that pass the query's filter have
-- the same id, and that the graph store and the libraries under the Oxigraph cache behave as
-- documented and do not fail.
pub memory-oxigraph_agree :
    (b : Backend) (good : IsHealthy b) (changes : List Change) (q : CatalogQuery)
    → HasUniqueIds (view_of (run memory changes new)) q.origin_node
    → memory.query q (run memory changes new)
      ≡ (oxigraph b).query q (run (oxigraph b) changes good.empty)
memory-oxigraph_agree b good changes q =
    query-agree memory (oxigraph b) memory_laws (oxigraph_laws b good) changes q new good.empty
      new-IsKeyed (empty-IsSound b good) (λ n. view-new n ∙ sym (view-empty b good n))

-- In a well-formed in-memory cache, after an upsert the query for the catalog's origin node returns
-- exactly the new catalog, and the query for any other node returns what it returned before.
pub memory_query-upsert :
    (c : Catalog) (n : NodeId) (s : InMemoryCatalogCache)
    → IsKeyed s.graphs
    → query (for_node n) (upsert c s).1
      ≡ (if node_id_eq c.origin_node n then ok (c ∷ []) else query (for_node n) s)
memory_query-upsert = query-upsert memory memory_laws

-- In a well-formed in-memory cache, a delete reports whether the query for its node would have
-- returned a catalog; after it that query returns nothing, and the query for any other node returns
-- what it returned before.
pub memory_query-delete :
    (k n : NodeId) (s : InMemoryCatalogCache)
    → IsKeyed s.graphs
    → (query (for_node k) s ≡ ok (to_list (view_of s k)))
      × ((delete k s).0 ≡ ok (is_some (view_of s k)))
      × (query (for_node n) (delete k s).1
          ≡ (if node_id_eq k n then ok [] else query (for_node n) s))
memory_query-delete k n s h =
    let (reported, after) = query-delete memory memory_laws k n s h in
    (query-for_node memory memory_laws k s h, reported, after)
