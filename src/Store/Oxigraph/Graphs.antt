-- ===== src/Store/Oxigraph/Graphs.antt =====
-- One graph of the store: what loading it, replacing it and removing it do.
use text.Mathlib.TextLemmas.{append_cancel_left}
use federated_catalog_rs.Prelude.{
  String, ◌≡◌, ◌≢◌, ◌⊎◌, inl, inr, true, false, none, some, [], ◌∷◌, ok, eq_iff, eq_refl, arith,
}
use federated_catalog_rs.Text.{◌+++◌}
use federated_catalog_rs.Catalog.{Catalog, NodeId}
use federated_catalog_rs.Store.Oxigraph.{
  Backend, Quad, literal, node_ns, catalog_json_predicate, load_graph, has_subject, node_iri,
}
use federated_catalog_rs.Store.Oxigraph.Healthy.{IsHealthy}

module _ (b : Backend) (good : IsHealthy b) where
  open good use {quads, json}

  abbrev pub iri : NodeId → String
  iri n = node_ns +++ b.urlencode n.id

  pub iri_inj : (m n : NodeId) → iri m ≡ iri n → m.id ≡ n.id
  iri_inj m n e = good.urlencode_inj m.id n.id (append_cancel_left node_ns _ _ e)

  pub node_iri_lem : (n : NodeId) → node_iri b n ≡ ok (iri n)
  unfolding node_iri
  node_iri_lem n = rw (good.new_named_node_lem n.id)

  -- The one quad of a node's graph
  abbrev pub catalog_quad : Catalog → Quad b.JsonText
  catalog_quad c = record {
    subject = iri c.origin_node;
    predicate = catalog_json_predicate;
    object = literal (json c);
    graph = iri c.origin_node;
  }

  -- What may stand in a graph: nothing, or the quad of a catalog whose node the graph belongs to
  abbrev pub IsStored : b.GraphStore → String → Type 0
  IsStored s g =
      (quads s g ≡ [])
      ⊎ ((c : Catalog) × (quads s g ≡ catalog_quad c ∷ []) × (iri c.origin_node ≡ g))

  pub record IsSound (s : b.GraphStore) : Type 0 where
    pub stored : (g : String) → IsStored s g

  module _ (s : b.GraphStore) where
    pub load_graph_absent : (g : String) → quads s g ≡ [] → load_graph b g s ≡ ok none
    unfolding load_graph
    load_graph_absent g e = rw (good.quads_for_pattern_lem, e)

    pub load_graph_present :
        (c : Catalog)
        → quads s (iri c.origin_node) ≡ catalog_quad c ∷ []
        → load_graph b (iri c.origin_node) s ≡ ok (some c)
    unfolding load_graph
    load_graph_present c e = rw (good.quads_for_pattern_lem, e, eq_refl, good.from_json_lem)

    pub has_subject_absent : (g : String) → quads s g ≡ [] → has_subject b g s ≡ ok false
    unfolding has_subject
    has_subject_absent g e = rw (good.quads_for_pattern_lem, e)

    pub has_subject_present :
        (c : Catalog)
        → quads s (iri c.origin_node) ≡ catalog_quad c ∷ []
        → has_subject b (iri c.origin_node) s ≡ ok true
    unfolding has_subject
    has_subject_present c e = rw (good.quads_for_pattern_lem, e, eq_refl)

    pub quads-remove_self :
        (g : String) → IsStored s g → quads (b.remove_subject_from_named_graph g g s).1 g ≡ []
    quads-remove_self g (inl e) = rw (good.quads-remove, eq_refl, e)
    quads-remove_self g (inr (c, e, same)) =
        rw (good.quads-remove, eq_refl, e) (ground (arith, eq_iff (iri c.origin_node) g))

    pub quads-remove_ne :
        (g h : String) → g ≢ h → quads (b.remove_subject_from_named_graph g g s).1 h ≡ quads s h
    quads-remove_ne g h d = rw good.quads-remove (ground (arith, eq_iff g h))
