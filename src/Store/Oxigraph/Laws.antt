-- ===== src/Store/Oxigraph/Laws.antt =====
-- The Oxigraph cache fills the contract of a cache, over a healthy store.
use mathlib.Core.List.{Memᴰ}
use mathlib.Core.Option.{none-ne-some, some-injective}
use federated_catalog_rs.Prelude.{
  String, ◌≡◌, refl, inl, inr, true, Option, none, some, List, [], ◌∷◌, ok, ◌==◌, if◌then◌else◌,
  eq_iff, arith, ap, sym, ◌∙◌, text-cases,
}
use federated_catalog_rs.Text.{◌+++◌}
use federated_catalog_rs.Catalog.{Catalog, NodeId, node_id_eq}
use federated_catalog_rs.Store.{CatalogQuery, matches, paginate}
use federated_catalog_rs.Store.Contract.{IsCache, Enumerates, origin_id, is_some}
use federated_catalog_rs.Store.Oxigraph.{
  Backend, node_ns, named, cons_some, collect_results, query, upsert, delete, oxigraph,
}
use federated_catalog_rs.Store.Oxigraph.Healthy.{IsHealthy}
use federated_catalog_rs.Store.Oxigraph.Graphs.{iri, iri_inj, node_iri_lem, IsStored, IsSound}
use federated_catalog_rs.Store.Oxigraph.Writes.{
  upsert_result, quads-upsert, quads-delete, delete_absent, delete_present,
}
use federated_catalog_rs.Store.Oxigraph.Listing.{
  collect-ok, held, view_of, held_absent, held_present, load_graph-held, held_iri, held_view,
  listed, load_graphs-listed, listed_view, listed_complete, listed_distinct,
}

module _ (b : Backend) (good : IsHealthy b) where
  open good use {quads, graphs}

  iri_eq : (m n : NodeId) → (iri b good m == iri b good n) ≡ node_id_eq m n
  iri_eq m n = elim (text-cases m.id n.id) [
    | inl (t, same) ↦ rw t (
        (eq_iff (iri b good m) (iri b good n)).1
          (ap (λ (i : String). node_ns +++ b.urlencode i) same))
    | inr (t, other) ↦
        rw t (ground (arith, eq_iff (iri b good m) (iri b good n), iri_inj b good m n))
  ]

  pub upsert-IsSound :
      (c : Catalog) (s : b.GraphStore) → IsSound b good s → IsSound b good (upsert b c s).1
  upsert-IsSound c s h = record {
    stored = λ g. elim (text-cases (iri b good c.origin_node) g) [
      | inl (t, same) ↦ inr (c, quads-upsert b good c s g (h.stored _) ∙ rw t, same)
      | inr (t, other) ↦ kept g (quads-upsert b good c s g (h.stored _) ∙ rw t) (h.stored g)
    ];
  }
    where
      kept :
          (g : String)
          → quads (upsert b c s).1 g ≡ quads s g
          → IsStored b good s g
          → IsStored b good (upsert b c s).1 g
      kept g e (inl p) = inl (e ∙ p)
      kept g e (inr (d, p, q)) = inr (d, e ∙ p, q)

  pub delete-IsSound :
      (k : NodeId) (s : b.GraphStore) → IsSound b good s → IsSound b good (delete b k s).1
  delete-IsSound k s h = record {
    stored = λ g. elim (text-cases (iri b good k) g) [
      | inl (t, same) ↦ inl (quads-delete b good k s g (h.stored _) ∙ rw t)
      | inr (t, other) ↦ kept g (quads-delete b good k s g (h.stored _) ∙ rw t) (h.stored g)
    ];
  }
    where
      kept :
          (g : String)
          → quads (delete b k s).1 g ≡ quads s g
          → IsStored b good s g
          → IsStored b good (delete b k s).1 g
      kept g e (inl p) = inl (e ∙ p)
      kept g e (inr (d, p, q)) = inr (d, e ∙ p, q)

  -- What a graph holds depends on its quads alone.
  held_of_quads :
      (s t : b.GraphStore) (g : String)
      → IsStored b good s g
      → quads t g ≡ quads s g
      → held b good t g ≡ held b good s g
  held_of_quads s t g (inl p) e = held_absent b good t g (e ∙ p) ∙ sym (held_absent b good s g p)
  held_of_quads s t g (inr (c, p, q)) e =
      held_present b good t g c (e ∙ p) q ∙ sym (held_present b good s g c p q)

  pub view-upsert :
      (c : Catalog) (s : b.GraphStore) (n : NodeId)
      → IsSound b good s
      → view_of b good (upsert b c s).1 n
        ≡ (if node_id_eq c.origin_node n then some c else view_of b good s n)
  unfolding view_of
  view-upsert c s n h =
      let written = quads-upsert b good c s (iri b good n) (h.stored _) in
      elim (text-cases (iri b good c.origin_node) (iri b good n)) [
        | inl (t, same) ↦
            rw (← iri_eq c.origin_node n, t)
              (held_present b good (upsert b c s).1 (iri b good n) c (written ∙ rw t) same)
        | inr (t, other) ↦
            rw (← iri_eq c.origin_node n, t)
              (held_of_quads s (upsert b c s).1 (iri b good n) (h.stored _) (written ∙ rw t))
      ]

  pub view-delete :
      (k : NodeId) (s : b.GraphStore) (n : NodeId)
      → IsSound b good s
      → view_of b good (delete b k s).1 n ≡ (if node_id_eq k n then none else view_of b good s n)
  unfolding view_of
  view-delete k s n h =
      let written = quads-delete b good k s (iri b good n) (h.stored _) in
      elim (text-cases (iri b good k) (iri b good n)) [
        | inl (t, same) ↦
            rw (← iri_eq k n, t)
              (held_absent b good (delete b k s).1 (iri b good n) (written ∙ rw t))
        | inr (t, other) ↦
            rw (← iri_eq k n, t)
              (held_of_quads s (delete b k s).1 (iri b good n) (h.stored _) (written ∙ rw t))
      ]

  at_single {κ} : {P : Type κ} (c d : Catalog) → Memᴰ c (d ∷ []) → (c ≡ d → P) → P
  at_single c d (Memᴰ.head p) k = k p
  at_single c d (Memᴰ.tail m) k = elim m [ ]

  -- A catalog that passes the filter on a node is held by that node's graph.
  at_node :
      (s : b.GraphStore) (n : NodeId) (c : Catalog)
      → view_of b good s c.origin_node ≡ some c
      → matches (some n) c ≡ true
      → held b good s (iri b good n) ≡ some c
  unfolding view_of
  at_node s n c p q =
      ap (λ (i : String). held b good s (node_ns +++ b.urlencode i))
        (sym ((eq_iff (origin_id c) n.id).0 q))
      ∙ p

  module _ (s : b.GraphStore) (h : IsSound b good s) where
    pub view_origin : (n : NodeId) (c : Catalog) → view_of b good s n ≡ some c → origin_id c ≡ n.id
    unfolding view_of
    view_origin n c e = iri_inj b good c.origin_node n (held_iri b good s h (iri b good n) c e)

    -- A held graph has quads.
    graph_listed : (g : String) (c : Catalog) → held b good s g ≡ some c → Memᴰ (named g) (graphs s)
    graph_listed g c e =
        good.graphs_complete s g (λ p. none-ne-some c (sym (held_absent b good s g p) ∙ e))

    every_graph : Enumerates (view_of b good s) none (listed b good s h (graphs s))
    unfolding view_of
    every_graph = record {
      held = listed_view b good s h (graphs s);
      matched = λ c m. refl;
      complete = λ c e m.
          listed_complete b good s h (graphs s) (iri b good c.origin_node) c (graph_listed _ c e) e;
      distinct = listed_distinct b good s h (graphs s) (good.graphs-distinct s);
    }

    one_graph :
        (n : NodeId)
        → Enumerates (view_of b good s) (some n) (cons_some b (held b good s (iri b good n)) [])
    one_graph n = with_held (held b good s (iri b good n)) refl
      where
        with_held :
            (o : Option Catalog)
            → held b good s (iri b good n) ≡ o
            → Enumerates (view_of b good s) (some n) (cons_some b o [])
        with_held none e = record {
          held = λ c m. elim m [ ];
          matched = λ c m. elim m [ ];
          complete = λ c p q. absurd (none-ne-some c (sym e ∙ at_node s n c p q));
          distinct = tt;
        }
        with_held (some d) e = record {
          held = λ c m. at_single c d m (λ p. rw p (held_view b good s h (iri b good n) d e));
          matched = λ c m.
              at_single c d m
                (λ p. rw p ((eq_iff (origin_id d) n.id).1 (view_origin n d (unfold view_of in e))));
          complete = λ c p q. Memᴰ.head (some-injective c d (sym (at_node s n c p q) ∙ e));
          distinct = (tt, tt);
        }

    collected :
        (o : Option NodeId)
        → (xs : List Catalog) × (collect_results b o s ≡ ok xs) × Enumerates (view_of b good s) o xs
    unfolding collect_results
    collected (some n) = (
      cons_some b (held b good s (iri b good n)) [],
      rw (node_iri_lem b good, load_graph-held b good s h),
      one_graph n,
    )
    collected none = (
      listed b good s h (graphs s),
      rw (good.named_graphs_lem, collect-ok, load_graphs-listed b good s h),
      every_graph,
    )

    pub query_result :
        (q : CatalogQuery)
        → (xs : List Catalog) × (query b q s ≡ ok (paginate q xs))
          × Enumerates (view_of b good s) q.origin_node xs
    unfolding query
    query_result q = let (xs, e, f) = collected q.origin_node in (xs, rw e, f)

  pub delete_result :
      (k : NodeId) (s : b.GraphStore)
      → IsSound b good s
      → (delete b k s).0 ≡ ok (is_some (view_of b good s k))
  unfolding view_of
  delete_result k s h = elim (h.stored (iri b good k)) [
    | inl e ↦ rw (delete_absent b good k s e, held_absent b good s (iri b good k) e)
    | inr (c, e, same) ↦ rw (
      delete_present b good k c s (ap (quads s) same ∙ e) same,
      held_present b good s (iri b good k) c e same,
    )
  ]

  -- The Oxigraph cache fills the contract of a cache.
  abbrev pub oxigraph_laws : IsCache (oxigraph b)
  oxigraph_laws = record {
    IsSound = IsSound b good;
    view = view_of b good;
    view_origin = λ s n c h e. view_origin s h n c e;
    upsert_result = λ c s h. upsert_result b good c s;
    upsert_sound = λ c s h. upsert-IsSound c s h;
    view-upsert = λ c s n h. view-upsert c s n h;
    delete_result = delete_result;
    delete_sound = λ k s h. delete-IsSound k s h;
    view-delete = λ k s n h. view-delete k s n h;
    query_result = λ q s h. query_result s h q;
  }

  -- A fresh store is sound and holds nothing.
  pub empty-IsSound : IsSound b good good.empty
  empty-IsSound = record { stored = λ g. inl (good.quads-empty g) }

  pub view-empty : (n : NodeId) → view_of b good good.empty n ≡ none
  unfolding view_of
  view-empty n = held_absent b good good.empty (iri b good n) (good.quads-empty _)
