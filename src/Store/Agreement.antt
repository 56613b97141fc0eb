-- ===== src/Store/Agreement.antt =====
-- Two caches that keep the contract answer alike.
use mathlib.Core.List.{Memᴰ}
use federated_catalog_rs.Prelude.{
  ◌≡◌, refl, ◌≢◌, true, Option, none, some, List, [], ◌∷◌, ok, All, if◌then◌else◌, ap, sym, ◌∙◌,
}
use federated_catalog_rs.Sorting.{HasDistinctKeys}
use federated_catalog_rs.Catalog.{Catalog, NodeId, node_id_eq}
use federated_catalog_rs.Store.{CatalogQuery, CatalogCache, paginate, matches}
use federated_catalog_rs.Store.Paging.{paginate_unique}
use federated_catalog_rs.Store.Contract.{
  View, IsCache, Enumerates, HasUniqueIds, origin_id, catalog_id,
}

-- The calls that change a cache.
pub data Change : Type 0 where
  upsert : Catalog → Change
  delete : NodeId → Change

abbrev pub apply : (cache : CatalogCache) → Change → cache.State → cache.State
apply cache (upsert c) s = (cache.upsert c s).1
apply cache (delete n) s = (cache.delete n s).1

unfoldable pub run : (cache : CatalogCache) → List Change → cache.State → cache.State
run cache [] s = s
run cache (x ∷ xs) s = run cache xs (apply cache x s)

-- The same changes to a view.
abbrev pub change_view : Change → View → View
change_view (upsert c) v n = if node_id_eq c.origin_node n then some c else v n
change_view (delete k) v n = if node_id_eq k n then none else v n

pub change_view-same :
    (x : Change) (v w : View)
    → ((n : NodeId) → v n ≡ w n)
    → (n : NodeId) → change_view x v n ≡ change_view x w n
change_view-same (upsert c) v w h n = rw (h n)
change_view-same (delete k) v w h n = rw (h n)

module _ (cache : CatalogCache) (laws : IsCache cache) where
  pub apply-IsSound :
      (x : Change) (s : cache.State) → laws.IsSound s → laws.IsSound (apply cache x s)
  apply-IsSound (upsert c) s h = laws.upsert_sound c s h
  apply-IsSound (delete n) s h = laws.delete_sound n s h

  pub run-IsSound :
      (xs : List Change) (s : cache.State) → laws.IsSound s → laws.IsSound (run cache xs s)
  unfolding run
  run-IsSound [] s h = h
  run-IsSound (x ∷ xs) s h = run-IsSound xs (apply cache x s) (apply-IsSound x s h)

  pub view-apply :
      (x : Change) (s : cache.State) (n : NodeId)
      → laws.IsSound s
      → laws.view (apply cache x s) n ≡ change_view x (laws.view s) n
  view-apply (upsert c) s n h = laws.view-upsert c s n h
  view-apply (delete k) s n h = laws.view-delete k s n h

ids_apart :
    (v : View) (o : Option NodeId) (c : Catalog) (xs : List Catalog)
    → HasUniqueIds v o
    → v c.origin_node ≡ some c
    → matches o c ≡ true
    → ((d : Catalog) → Memᴰ d xs → v d.origin_node ≡ some d)
    → ((d : Catalog) → Memᴰ d xs → matches o d ≡ true)
    → All (λ d. origin_id c ≢ origin_id d) xs
    → All (λ d. catalog_id c ≢ catalog_id d) xs
ids_apart v o c [] u h m hs ms k = tt
ids_apart v o c (d ∷ xs) u h m hs ms (k, ks) = (
  (λ e. k (u c d h m (hs d (Memᴰ.head refl)) (ms d (Memᴰ.head refl)) e)),
  ids_apart v o c xs u h m (λ x p. hs x (Memᴰ.tail p)) (λ x p. ms x (Memᴰ.tail p)) ks,
)

distinct_ids :
    (v : View) (o : Option NodeId) (xs : List Catalog)
    → HasUniqueIds v o
    → ((d : Catalog) → Memᴰ d xs → v d.origin_node ≡ some d)
    → ((d : Catalog) → Memᴰ d xs → matches o d ≡ true)
    → HasDistinctKeys origin_id xs
    → HasDistinctKeys catalog_id xs
distinct_ids v o [] u hs ms k = tt
distinct_ids v o (c ∷ xs) u hs ms (k, ks) = (
  ids_apart v o c xs u (hs c (Memᴰ.head refl)) (ms c (Memᴰ.head refl)) (λ x p. hs x (Memᴰ.tail p))
      (λ x p. ms x (Memᴰ.tail p)) k,
  distinct_ids v o xs u (λ x p. hs x (Memᴰ.tail p)) (λ x p. ms x (Memᴰ.tail p)) ks,
)

Enumerates-paginate :
    (v w : View) (q : CatalogQuery) (xs ys : List Catalog)
    → ((n : NodeId) → v n ≡ w n)
    → HasUniqueIds v q.origin_node
    → Enumerates v q.origin_node xs
    → Enumerates w q.origin_node ys
    → paginate q xs ≡ paginate q ys
Enumerates-paginate v w q xs ys same u e f =
    paginate_unique q xs ys (distinct_ids v q.origin_node xs u e.held e.matched e.distinct)
      (distinct_ids v q.origin_node ys u (λ d p. same d.origin_node ∙ f.held d p) f.matched
        f.distinct)
      (λ c p. f.complete c (sym (same c.origin_node) ∙ e.held c p) (e.matched c p))
      (λ c p. e.complete c (same c.origin_node ∙ f.held c p) (f.matched c p))

module _ (A B : CatalogCache) (la : IsCache A) (lb : IsCache B) where
  views_agree :
      (xs : List Change) (s : A.State) (t : B.State)
      → la.IsSound s
      → lb.IsSound t
      → ((n : NodeId) → la.view s n ≡ lb.view t n)
      → (n : NodeId) → la.view (run A xs s) n ≡ lb.view (run B xs t) n
  unfolding run
  views_agree [] s t h k same n = same n
  views_agree (x ∷ xs) s t h k same n =
      views_agree xs (apply A x s) (apply B x t) (apply-IsSound A la x s h)
        (apply-IsSound B lb x t k)
        (λ m.
          view-apply A la x s m h
          ∙ change_view-same x (la.view s) (lb.view t) same m
          ∙ sym (view-apply B lb x t m k))
        n

  -- After the same changes, the two caches answer every query alike, if no two of the catalogs that
  -- pass its filter share an id.
  pub query-agree :
      (xs : List Change) (q : CatalogQuery) (s : A.State) (t : B.State)
      → la.IsSound s
      → lb.IsSound t
      → ((n : NodeId) → la.view s n ≡ lb.view t n)
      → HasUniqueIds (la.view (run A xs s)) q.origin_node
      → A.query q (run A xs s) ≡ B.query q (run B xs t)
  query-agree xs q s t h k same u =
      let (us, ea, fa) = la.query_result q (run A xs s) (run-IsSound A la xs s h) in
      let (vs, eb, fb) = lb.query_result q (run B xs t) (run-IsSound B lb xs t k) in
      ea
      ∙ ap ok (
          Enumerates-paginate (la.view (run A xs s)) (lb.view (run B xs t)) q us vs
            (views_agree xs s t h k same) u fa fb)
      ∙ sym eb
