-- ===== src/Store/Observed.antt =====
-- What can be observed of a cache (crates/rdf-store/src/lib.rs) after changes to a fresh one: the answers
-- are those of a map from a node to its catalog.
mod Tests
use federated_catalog_rs.Prelude.{
  ◌≡◌, refl, ap, sym, ◌∙◌, Bool, Option, none, List, [], ◌∷◌, ok, map_err, ok-injective, subst,
}
use federated_catalog_rs.Catalog.{Catalog, NodeId}
use federated_catalog_rs.Store.{CatalogQuery, CatalogCache, StoreError, backend, paginate}
use federated_catalog_rs.Store.Contract.{View, IsCache, Enumerates, is_some}
use federated_catalog_rs.Store.Agreement.{
  Change, apply, run, change_view, change_view-same, run-IsSound, apply-IsSound, view-apply,
}
use federated_catalog_rs.Store.Memory.{memory, new}
use federated_catalog_rs.Store.Memory.Laws.{memory_laws}
use federated_catalog_rs.Store.Backends.{new-IsKeyed, view-new}
use federated_catalog_rs.Store.Oxigraph.{Backend, oxigraph, in_memory}
use federated_catalog_rs.Store.Oxigraph.Healthy.{IsHealthy}
use federated_catalog_rs.Store.Oxigraph.Laws.{oxigraph_laws, empty-IsSound, view-empty}

-- The map after the changes
unfoldable pub change_views : List Change → View → View
change_views [] v = v
change_views (x ∷ xs) v = change_views xs (change_view x v)

abbrev pub held : List Change → View
held changes = change_views changes (λ n. none)

-- After the changes, an upsert succeeds, a delete reports whether the map has the node, and a query
-- returns its page of the catalogs in the map that pass its filter, each of them once.
pub record Observed (cache : CatalogCache) (fresh : cache.State) (changes : List Change)
    : Type 0 where
  pub upserted : (c : Catalog) → (cache.upsert c (run cache changes fresh)).0 ≡ ok tt
  pub deleted :
      (k : NodeId) → (cache.delete k (run cache changes fresh)).0 ≡ ok (is_some (held changes k))
  pub queried :
      (q : CatalogQuery)
      → (xs : List Catalog) × (cache.query q (run cache changes fresh) ≡ ok (paginate q xs))
        × Enumerates (held changes) q.origin_node xs

change_views-same :
    (xs : List Change) (v w : View)
    → ((n : NodeId) → v n ≡ w n)
    → (n : NodeId) → change_views xs v n ≡ change_views xs w n
unfolding change_views
change_views-same [] v w h n = h n
change_views-same (x ∷ xs) v w h n =
    change_views-same xs (change_view x v) (change_view x w) (change_view-same x v w h) n

Enumerates-same :
    (v w : View) (o : Option NodeId) (xs : List Catalog)
    → ((n : NodeId) → v n ≡ w n)
    → Enumerates v o xs
    → Enumerates w o xs
Enumerates-same v w o xs h e = record {
  held = λ c m. sym (h c.origin_node) ∙ e.held c m;
  matched = e.matched;
  complete = λ c p m. e.complete c (h c.origin_node ∙ p) m;
  distinct = e.distinct;
}

module _ (cache : CatalogCache) (laws : IsCache cache) where
  view-run :
      (xs : List Change) (s : cache.State) (n : NodeId)
      → laws.IsSound s
      → laws.view (run cache xs s) n ≡ change_views xs (laws.view s) n
  unfolding run change_views
  view-run [] s n h = refl
  view-run (x ∷ xs) s n h =
      view-run xs (apply cache x s) n (apply-IsSound cache laws x s h)
      ∙ change_views-same xs (laws.view (apply cache x s)) (change_view x (laws.view s))
          (λ m. view-apply cache laws x s m h) n

  observed :
      (changes : List Change) (fresh : cache.State)
      → laws.IsSound fresh
      → ((n : NodeId) → laws.view fresh n ≡ none)
      → Observed cache fresh changes
  observed changes fresh h empty =
      let s = run cache changes fresh in
      let sound = run-IsSound cache laws changes fresh h in
      let seen : (n : NodeId) → laws.view s n ≡ held changes n =
        λ n. view-run changes fresh n h ∙ change_views-same changes (laws.view fresh) _ empty n in
      record {
        upserted = λ c. laws.upsert_result c s sound;
        deleted = λ k. laws.delete_result k s sound ∙ ap (λ o. ok (is_some o)) (seen k);
        queried = λ q.
            let (xs, e, f) = laws.query_result q s sound in
            (xs, e, Enumerates-same (laws.view s) (held changes) q.origin_node xs seen f);
      }

-- The in-memory cache refines a map from a node to its catalog: after any upserts and deletes on a
-- fresh cache, an upsert succeeds, a delete reports whether the map has a catalog of the node, and a
-- query returns its page of the catalogs in the map that pass its filter, each of them once.
pub memory-Observed : (changes : List Change) → Observed memory new changes
memory-Observed changes = observed memory memory_laws changes new new-IsKeyed view-new

-- So does the Oxigraph cache, from `in_memory` on: it refines the same map, if the graph store and the
-- libraries under it behave as documented and do not fail.
pub oxigraph-Observed :
    (b : Backend) (good : IsHealthy b) (fresh : b.GraphStore) (changes : List Change)
    → in_memory b ≡ ok fresh
    → Observed (oxigraph b) fresh changes
unfolding in_memory
oxigraph-Observed b good fresh changes e =
    subst (λ s. Observed (oxigraph b) s changes)
      (ok-injective (sym (ap (map_err backend) good.in_memory_empty) ∙ e))
      (observed (oxigraph b) (oxigraph_laws b good) changes good.empty (empty-IsSound b good)
        (view-empty b good))
