-- ===== src/Store/Oxigraph/Listing.antt =====
-- The catalogs that a query of the Oxigraph cache collects.
use mathlib.Core.List.{Memᴰ}
use mathlib.Core.Option.{none-ne-some, some-injective}
use federated_catalog_rs.Prelude.{
  String, ◌≡◌, refl, ◌≢◌, inl, inr, Option, none, some, List, [], ◌∷◌, map, ok, err, All, arith, ap,
  sym, ◌∙◌,
}
use federated_catalog_rs.Text.{◌+++◌}
use federated_catalog_rs.Sorting.{HasDistinctKeys}
use federated_catalog_rs.Catalog.{Catalog}
use federated_catalog_rs.Store.{StoreResult}
use federated_catalog_rs.Store.Contract.{View, origin_id}
use federated_catalog_rs.Store.Oxigraph.{
  Backend, node_ns, NamedOrBlankNode, named, blank, load_graph, load_graphs, cons_some, collect,
}
use federated_catalog_rs.Store.Oxigraph.Healthy.{IsHealthy, IsDistinct}
use federated_catalog_rs.Store.Oxigraph.Graphs.{
  iri, catalog_quad, IsSound, load_graph_absent, load_graph_present,
}

pub collect-ok {ℓ} : {A E : Type ℓ} (xs : List A) → collect {E = E} (map ok xs) ≡ ok xs
unfolding collect
collect-ok [] = refl
collect-ok {E} (x ∷ xs) = rw (collect-ok {E = E} xs)

abbrev pub loaded_or_none : StoreResult (Option Catalog) → Option Catalog
loaded_or_none (ok o) = o
loaded_or_none (err e) = none

module _ (b : Backend) (good : IsHealthy b) where
  open good use {quads, graphs}

  -- What a graph holds, and what a node's graph holds
  unfoldable pub held : b.GraphStore → String → Option Catalog
  held s g = loaded_or_none (load_graph b g s)

  unfoldable pub view_of : b.GraphStore → View
  unfolding held
  view_of s n = held s (iri b good n)

  pub held_absent : (s : b.GraphStore) (g : String) → quads s g ≡ [] → held s g ≡ none
  unfolding held
  held_absent s g e = rw (load_graph_absent b good s g e)

  pub held_present :
      (s : b.GraphStore) (g : String) (c : Catalog)
      → quads s g ≡ catalog_quad b good c ∷ []
      → iri b good c.origin_node ≡ g
      → held s g ≡ some c
  unfolding held
  held_present s g c e same =
      rw (← same) (rw (load_graph_present b good s c (ap (quads s) same ∙ e)))

  module _ (s : b.GraphStore) (sound : IsSound b good s) where
    pub load_graph-held : (g : String) → load_graph b g s ≡ ok (held s g)
    unfolding held
    load_graph-held g = elim (sound.stored g) [
      | inl e ↦ rw (load_graph_absent b good s g e)
      | inr (c, e, same) ↦ rw (← same) (rw (load_graph_present b good s c (ap (quads s) same ∙ e)))
    ]

    pub held_iri : (g : String) (c : Catalog) → held s g ≡ some c → iri b good c.origin_node ≡ g
    held_iri g c p = elim (sound.stored g) [
      | inl e ↦ absurd (none-ne-some c (sym (held_absent s g e) ∙ p))
      | inr (d, e, same) ↦
          ap (λ (x : Catalog). iri b good x.origin_node)
            (some-injective c d (sym p ∙ held_present s g d e same))
          ∙ same
    ]

    pub held_view :
        (g : String) (c : Catalog) → held s g ≡ some c → view_of s c.origin_node ≡ some c
    unfolding view_of
    held_view g c p = ap (held s) (held_iri g c p) ∙ p

    -- The catalogs of a list of graphs
    abbrev pub listed : List NamedOrBlankNode → List Catalog
    listed [] = []
    listed (blank g ∷ gs) = listed gs
    listed (named g ∷ gs) = cons_some b (held s g) (listed gs)

    pub load_graphs-listed : (gs : List NamedOrBlankNode) → load_graphs b gs s ≡ ok (listed gs)
    unfolding load_graphs
    load_graphs-listed [] = refl
    load_graphs-listed (blank g ∷ gs) = load_graphs-listed gs
    load_graphs-listed (named g ∷ gs) = rw (load_graph-held g, load_graphs-listed gs)

    pub listed_view :
        (gs : List NamedOrBlankNode) (c : Catalog)
        → Memᴰ c (listed gs)
        → view_of s c.origin_node ≡ some c
    listed_view [] c m = elim m [ ]
    listed_view (blank g ∷ gs) c m = listed_view gs c m
    listed_view (named g ∷ gs) c m = by_head (held s g) refl m (listed_view gs c)
      where
        by_head :
            (o : Option Catalog)
            → held s g ≡ o
            → Memᴰ c (cons_some b o (listed gs))
            → (Memᴰ c (listed gs) → view_of s c.origin_node ≡ some c)
            → view_of s c.origin_node ≡ some c
        by_head none e k ih = ih k
        by_head (some d) e (Memᴰ.head p) ih = held_view g c (e ∙ ap some (sym p))
        by_head (some d) e (Memᴰ.tail k) ih = ih k

    pub listed_complete :
        (gs : List NamedOrBlankNode) (g : String) (c : Catalog)
        → Memᴰ (named g) gs
        → held s g ≡ some c
        → Memᴰ c (listed gs)
    listed_complete [] g c m e = elim m [ ]
    listed_complete (blank h ∷ gs) g c (Memᴰ.head p) e = absurd (ground arith)
    listed_complete (blank h ∷ gs) g c (Memᴰ.tail m) e = listed_complete gs g c m e
    listed_complete (named h ∷ gs) g c (Memᴰ.head p) e =
        let same : g ≡ h = cc in
        let found : held s h ≡ some c = ap (held s) (sym same) ∙ e in rw found (Memᴰ.head refl)
    listed_complete (named h ∷ gs) g c (Memᴰ.tail m) e =
        behind (held s h) (listed_complete gs g c m e)
      where
        behind : (o : Option Catalog) → Memᴰ c (listed gs) → Memᴰ c (cons_some b o (listed gs))
        behind none k = k
        behind (some d) k = Memᴰ.tail k

    -- A catalog of another graph has another origin.
    listed_apart :
        (g : String) (c : Catalog) (gs : List NamedOrBlankNode)
        → held s g ≡ some c
        → All (λ h. named g ≢ h) gs
        → All (λ d. origin_id c ≢ origin_id d) (listed gs)
    listed_apart g c [] e h = tt
    listed_apart g c (blank k ∷ gs) e (p, h) = listed_apart g c gs e h
    listed_apart g c (named k ∷ gs) e (p, h) = apart (held s k) refl (listed_apart g c gs e h)
      where
        apart :
            (o : Option Catalog)
            → held s k ≡ o
            → All (λ d. origin_id c ≢ origin_id d) (listed gs)
            → All (λ d. origin_id c ≢ origin_id d) (cons_some b o (listed gs))
        apart none q ih = ih
        apart (some d) q ih = (
          (λ same. p (
              ap named (
                sym (held_iri g c e)
                ∙ ap (λ (i : String). node_ns +++ b.urlencode i) same
                ∙ held_iri k d q))),
          ih,
        )

    pub listed_distinct :
        (gs : List NamedOrBlankNode) → IsDistinct gs → HasDistinctKeys origin_id (listed gs)
    listed_distinct [] h = tt
    listed_distinct (blank g ∷ gs) (p, h) = listed_distinct gs h
    listed_distinct (named g ∷ gs) (p, h) = with_head (held s g) refl (listed_distinct gs h)
      where
        with_head :
            (o : Option Catalog)
            → held s g ≡ o
            → HasDistinctKeys origin_id (listed gs)
            → HasDistinctKeys origin_id (cons_some b o (listed gs))
        with_head none e ih = ih
        with_head (some c) e ih = (listed_apart g c gs e p, ih)
