-- ===== src/Store/Lookup.antt =====
-- Queries of one node, for every cache that keeps the contract.
use mathlib.Core.List.{Memᴰ}
use federated_catalog_rs.Prelude.{
  ◌≡◌, refl, true, Option, none, some, List, [], ◌∷◌, ok, if◌then◌else◌, eq_iff, arith, ap, sym,
  ◌∙◌, Option-cases, inl, inr,
}
use federated_catalog_rs.Sorting.{sort_by}
use federated_catalog_rs.Catalog.{Catalog, NodeId, node_id, node_id_eq}
use federated_catalog_rs.Store.{CatalogCache, paginate, matches, for_node}
use federated_catalog_rs.Store.Contract.{View, IsCache, Enumerates, origin_id, is_some}

abbrev pub to_list : Option Catalog → List Catalog
to_list none = []
to_list (some c) = c ∷ []

paginate-for_node :
    (n : NodeId) (o : Option Catalog) → paginate (for_node n) (to_list o) ≡ to_list o
unfolding paginate sort_by
paginate-for_node n none = refl
paginate-for_node n (some c) = refl

origin-eq_of_matches : (n : NodeId) (c : Catalog) → matches (some n) c ≡ true → c.origin_node ≡ n
origin-eq_of_matches n c h = ap node_id ((eq_iff (origin_id c) n.id).0 h)

-- What a filter on one node leaves is the catalog of that node, or nothing.
Enumerates-eq-to_list :
    (v : View) (n : NodeId)
    → ((c : Catalog) → v n ≡ some c → origin_id c ≡ n.id)
    → (xs : List Catalog) → Enumerates v (some n) xs
    → xs ≡ to_list (v n)
Enumerates-eq-to_list v n keyed [] e = elim (Option-cases (v n)) [
  | inl absent ↦ rw absent
  | inr (c, found) ↦
      elim (e.complete c (ap v (ap node_id (keyed c found)) ∙ found)
        ((eq_iff _ _).1 (keyed c found))) [ ]
]
Enumerates-eq-to_list v n keyed (c ∷ []) e =
    let same = origin-eq_of_matches n c (e.matched c (Memᴰ.head refl)) in
    let found = ap v (sym same) ∙ e.held c (Memᴰ.head refl) in rw found
Enumerates-eq-to_list v n keyed (c ∷ d ∷ xs) e =
    let same = origin-eq_of_matches n c (e.matched c (Memᴰ.head refl)) in
    let same' = origin-eq_of_matches n d (e.matched d (Memᴰ.tail (Memᴰ.head refl))) in
    absurd (e.distinct.0.0 (ap (λ (m : NodeId). m.id) (same ∙ sym same')))

module _ (cache : CatalogCache) (laws : IsCache cache) where
  pub query-for_node :
      (n : NodeId) (s : cache.State)
      → laws.IsSound s
      → cache.query (for_node n) s ≡ ok (to_list (laws.view s n))
  query-for_node n s h =
      let (xs, e, enumerated) = laws.query_result (for_node n) s h in
      e
      ∙ ap (λ (ys : List Catalog). ok (paginate (for_node n) ys))
          (Enumerates-eq-to_list (laws.view s) n (λ c p. laws.view_origin s n c h p) xs enumerated)
      ∙ ap ok (paginate-for_node n (laws.view s n))

  -- After an upsert its origin node has exactly the new catalog, and every other node is as it was.
  pub query-upsert :
      (c : Catalog) (n : NodeId) (s : cache.State)
      → laws.IsSound s
      → cache.query (for_node n) (cache.upsert c s).1
        ≡ (if node_id_eq c.origin_node n then ok (c ∷ []) else cache.query (for_node n) s)
  query-upsert c n s h =
      query-for_node n (cache.upsert c s).1 (laws.upsert_sound c s h)
      ∙ rw (laws.view-upsert c s n h, query-for_node n s h) (ground arith)

  -- A delete reports whether there was a catalog, and leaves none for the node.
  pub query-delete :
      (k n : NodeId) (s : cache.State)
      → laws.IsSound s
      → ((cache.delete k s).0 ≡ ok (is_some (laws.view s k)))
        × (cache.query (for_node n) (cache.delete k s).1
            ≡ (if node_id_eq k n then ok [] else cache.query (for_node n) s))
  query-delete k n s h = (
    laws.delete_result k s h,
    query-for_node n (cache.delete k s).1 (laws.delete_sound k s h)
        ∙ rw (laws.view-delete k s n h, query-for_node n s h) (ground arith),
  )
