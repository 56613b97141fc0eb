-- ===== src/Store/Oxigraph/Writes.antt =====
-- What `upsert` and `delete` of the Oxigraph cache do to the graphs.
use federated_catalog_rs.Prelude.{
  String, ◌≡◌, inl, inr, true, false, [], ◌∷◌, Result, ok, ◌==◌, if◌then◌else◌, text-cases, ap, ◌∙◌,
}
use federated_catalog_rs.Catalog.{Catalog, NodeId}
use federated_catalog_rs.Store.Oxigraph.{
  Backend, literal, catalog_json_predicate, upsert, delete, replace_graph,
}
use federated_catalog_rs.Store.Oxigraph.Healthy.{IsHealthy}
use federated_catalog_rs.Store.Oxigraph.Graphs.{
  iri, node_iri_lem, catalog_quad, IsStored, quads-remove_self, quads-remove_ne, has_subject_absent,
  has_subject_present,
}

module _ (b : Backend) (good : IsHealthy b) where
  open good use {quads, json}

  abbrev pub removed : String → b.GraphStore → b.GraphStore
  removed g s = (b.remove_subject_from_named_graph g g s).1

  abbrev written : Catalog → b.GraphStore → b.GraphStore
  written c s =
      let g = iri b good c.origin_node in
      (b.insert_in_named_graph g catalog_json_predicate (literal (json c)) g (removed g s)).1

  upsert_lem : (c : Catalog) (s : b.GraphStore) → upsert b c s ≡ (ok tt, written c s)
  unfolding upsert
  upsert_lem c s = rw (
    upsert,
    node_iri_lem b good,
    good.to_json_lem,
    replace_graph,
    good.remove_result,
    good.insert_result,
  )

  pub upsert_result : (c : Catalog) (s : b.GraphStore) → (upsert b c s).0 ≡ ok tt
  upsert_result c s = ap (λ (r : Result (Unit {0}) _ × b.GraphStore). r.0) (upsert_lem c s)

  -- The graph of the catalog's node holds its quad, and every other graph is as it was.
  pub quads-upsert :
      (c : Catalog) (s : b.GraphStore) (g : String)
      → IsStored b good s (iri b good c.origin_node)
      → quads (upsert b c s).1 g
        ≡ (if iri b good c.origin_node == g then catalog_quad b good c ∷ [] else quads s g)
  quads-upsert c s g h =
      let own = iri b good c.origin_node in
      rw (upsert_lem c s) (elim (text-cases own g) [
        | inl (t, same) ↦
            rw (t, ← same)
              (good.quads-insert_into_empty own _ _ own (removed own s)
                (quads-remove_self b good s own h))
        | inr (t, other) ↦ rw t (
            good.quads-insert_elsewhere own _ _ own g (removed own s) other
            ∙ quads-remove_ne b good s own g other)
      ])

  pub delete_absent :
      (k : NodeId) (s : b.GraphStore) → quads s (iri b good k) ≡ [] → delete b k s ≡ (ok false, s)
  unfolding delete
  delete_absent k s e =
      rw (delete, node_iri_lem b good, has_subject_absent b good s (iri b good k) e)

  pub delete_present :
      (k : NodeId) (c : Catalog) (s : b.GraphStore)
      → quads s (iri b good c.origin_node) ≡ catalog_quad b good c ∷ []
      → iri b good c.origin_node ≡ iri b good k
      → delete b k s ≡ (ok true, removed (iri b good k) s)
  unfolding delete
  delete_present k c s e same =
      rw (delete, node_iri_lem b good, ← same, has_subject_present b good s c e, good.remove_result)
        (rw same)

  pub quads-delete :
      (k : NodeId) (s : b.GraphStore) (g : String)
      → IsStored b good s (iri b good k)
      → quads (delete b k s).1 g ≡ (if iri b good k == g then [] else quads s g)
  quads-delete k s g (inl e) = rw (delete_absent k s e) (elim (text-cases (iri b good k) g) [
    | inl (t, same) ↦ rw (t, ← same) e
    | inr (t, other) ↦ rw t
  ])
  quads-delete k s g (inr (c, e, same)) =
      rw (delete_present k c s (ap (quads s) same ∙ e) same) (elim (text-cases (iri b good k) g) [
        | inl (t, eq) ↦ rw (t, ← eq) (quads-remove_self b good s (iri b good k) (inr (c, e, same)))
        | inr (t, other) ↦ rw t (quads-remove_ne b good s (iri b good k) g other)
      ])
