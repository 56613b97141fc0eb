-- ===== src/Store/Abstract.antt =====
-- A cache without its representation: the sound states of a CatalogCache (crates/rdf-store/src/lib.rs),
-- where two are one if each node has the same catalog in both.
mod Tests
use mathlib.Core.Quot
use mathlib.Core.Quot.{Quot, Quot-set}
use mathlib.Core.HLevel.{hedberg}
use federated_catalog_rs.Prelude.{
  String, ◌≡◌, refl, ap, sym, ◌∙◌, ok, some, none, Option, if◌then◌else◌, inl, inr, text-cases,
  fun_ext, List, [], ◌∷◌, ◌≢◌, eq_iff, arith,
}
use federated_catalog_rs.Catalog.{Catalog, NodeId, node_id_eq}
use federated_catalog_rs.Store.{CatalogQuery, CatalogCache}
use federated_catalog_rs.Store.Contract.{View, IsCache, HasUniqueIds}
use federated_catalog_rs.Store.Agreement.{
  Change, upsert, delete, apply, run, change_view, change_view-same, apply-IsSound, view-apply,
  query-agree, run-IsSound,
}

String-discrete : Discrete String
String-discrete s t = elim (text-cases s t) [ inl h ↦ yes h.1 | inr h ↦ no h.1 ]

Catalog-set : IsSet Catalog
Catalog-set = hlevel (hedberg String-discrete)

View-set : IsSet View
View-set = hlevel Catalog-set

-- The node whose catalog a change sets or removes
abbrev changed : Change → String
changed (upsert c) = c.origin_node.id
changed (delete k) = k.id

change_view_comm :
    (x y : Change) (v : View)
    → changed x ≢ changed y
    → change_view x (change_view y v) ≡ change_view y (change_view x v)
change_view_comm (upsert c) (upsert d) v apart =
    fun_ext (λ n. ground (arith, eq_iff c.origin_node.id n.id, eq_iff d.origin_node.id n.id))
change_view_comm (upsert c) (delete k) v apart =
    fun_ext (λ n. ground (arith, eq_iff c.origin_node.id n.id, eq_iff k.id n.id))
change_view_comm (delete k) (upsert d) v apart =
    fun_ext (λ n. ground (arith, eq_iff k.id n.id, eq_iff d.origin_node.id n.id))
change_view_comm (delete k) (delete j) v apart =
    fun_ext (λ n. ground (arith, eq_iff k.id n.id, eq_iff j.id n.id))

module _ (cache : CatalogCache) (laws : IsCache cache) where
  abbrev Sound : Type 0
  Sound = (s : cache.State) × laws.IsSound s

  abbrev SameView : Sound → Sound → Type 0
  SameView s t = (n : NodeId) → laws.view s.0 n ≡ laws.view t.0 n

  -- An abstract cache
  abbrev Abstract : Type 0
  Abstract = Quot SameView

  unfoldable abstract_view : Abstract → View
  abstract_view = Quot.lift View-set (λ s. laws.view s.0) (λ s t same. fun_ext same)

  -- A change respects the relation.
  apply-SameView :
      (x : Change) (s t : Sound)
      → SameView s t
      → SameView
          (apply cache x s.0, apply-IsSound cache laws x s.0 s.1)
          (apply cache x t.0, apply-IsSound cache laws x t.0 t.1)
  apply-SameView x (s, h) (t, k) same n =
      view-apply cache laws x s n h
      ∙ change_view-same x (laws.view s) (laws.view t) same n
      ∙ sym (view-apply cache laws x t n k)

  unfoldable abstract_apply : Change → Abstract → Abstract
  abstract_apply x =
      Quot.lift Quot-set (λ s. Quot.mk (apply cache x s.0, apply-IsSound cache laws x s.0 s.1))
        (λ s t same. Quot.sound (apply-SameView x s t same))

  abstract_view-apply :
      (x : Change) (a : Abstract)
      → abstract_view (abstract_apply x a) ≡ change_view x (abstract_view a)
  unfolding abstract_view abstract_apply
  abstract_view-apply x =
      Quot.ind (λ a. hlevel View-set) (λ s. fun_ext (λ n. view-apply cache laws x s.0 n s.1))

  -- An abstract cache is no more than its view.
  view-embeds : (a b : Abstract) → abstract_view a ≡ abstract_view b → a ≡ b
  unfolding abstract_view
  view-embeds =
      Quot.ind (λ a. hlevel Quot-set)
        (λ s. Quot.ind (λ b. hlevel Quot-set) (λ t e. Quot.sound (λ n. ap (λ (v : View). v n) e)))

  -- What a state is, without its representation
  abbrev abstract : (s : cache.State) → laws.IsSound s → Abstract
  abstract s h = Quot.mk (s, h)

  query-abstract :
      (q : CatalogQuery) (s t : cache.State) (h : laws.IsSound s) (k : laws.IsSound t)
      → abstract s h ≡ abstract t k
      → HasUniqueIds (laws.view s) q.origin_node
      → cache.query q s ≡ cache.query q t
  unfolding abstract_view run
  query-abstract q s t h k same u =
      query-agree cache cache laws laws [] q s t h k
        (λ n. ap (λ (a : Abstract). abstract_view a n) same) u

  abstract_apply_comm :
      (x y : Change) (a : Abstract)
      → changed x ≢ changed y
      → abstract_apply x (abstract_apply y a) ≡ abstract_apply y (abstract_apply x a)
  abstract_apply_comm x y a apart =
      view-embeds (abstract_apply x (abstract_apply y a)) (abstract_apply y (abstract_apply x a)) (
        abstract_view-apply x (abstract_apply y a)
        ∙ ap (change_view x) (abstract_view-apply y a)
        ∙ change_view_comm x y (abstract_view a) apart
        ∙ sym (ap (change_view y) (abstract_view-apply x a))
        ∙ sym (abstract_view-apply y (abstract_apply x a)))

-- The order of two changes to different nodes does not show, in any cache that keeps the contract: both
-- orders lead to the same abstract cache, whatever the two states are, and a query is answered alike
-- after both, provided that no two of the catalogs that pass its filter have the same id.
pub apply_comm :
    (cache : CatalogCache) (laws : IsCache cache) (x y : Change) (s : cache.State)
    (h : laws.IsSound s) (q : CatalogQuery)
    → changed x ≢ changed y
    → HasUniqueIds (laws.view (run cache (x ∷ y ∷ []) s)) q.origin_node
    → (abstract cache laws (run cache (x ∷ y ∷ []) s) (run-IsSound cache laws (x ∷ y ∷ []) s h)
        ≡ abstract cache laws (run cache (y ∷ x ∷ []) s) (run-IsSound cache laws (y ∷ x ∷ []) s h))
      × (cache.query q (run cache (x ∷ y ∷ []) s) ≡ cache.query q (run cache (y ∷ x ∷ []) s))
unfolding abstract_apply abstract_view run
apply_comm cache laws x y s h q apart u =
    let same = abstract_apply_comm cache laws y x (abstract cache laws s h) (λ e. apart (sym e)) in
    let path = Quot.sound (λ n. ap (λ a. abstract_view cache laws a n) same) in
    (path, query-abstract cache laws q _ _ _ _ path u)
