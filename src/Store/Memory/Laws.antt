-- ===== src/Store/Memory/Laws.antt =====
-- The in-memory cache fills the contract of a cache.
use mathlib.Core.List.{Memᴰ}
use mathlib.Core.Option.{some-injective}
use federated_catalog_rs.Prelude.{
  String, ◌≡◌, refl, ◌≢◌, Bool, true, Option, none, some, List, [], ◌∷◌, All, filter, ok,
  if◌then◌else◌, ◌==◌, eq_iff, arith, Bool-cases, inl, inr, ap, sym, ◌∙◌, subst,
}
use federated_catalog_rs.Sorting.{HasDistinctKeys}
use federated_catalog_rs.Sorting.Unique.{All-Memᴰ}
use federated_catalog_rs.Catalog.{Catalog, NodeId, node_id_eq}
use federated_catalog_rs.Store.{CatalogQuery, matches, paginate}
use federated_catalog_rs.Store.Contract.{View, IsCache, Enumerates, origin_id, is_some}
use federated_catalog_rs.Store.Memory.{
  HashMap, InMemoryCatalogCache, lookup, values, upsert, delete, query, memory,
}
use federated_catalog_rs.Store.Memory.Map.{
  IsKeyed, key_id, lookup-insert, lookup-remove, insert-IsKeyed, remove-IsKeyed, lookup_origin,
}

module _ {ℓ} {A : Type ℓ} (p : A → Bool) where
  pub Memᴰ-filter : {a : A} (xs : List A) → Memᴰ a (filter p xs) → Memᴰ a xs
  Memᴰ-filter [] m = m
  Memᴰ-filter {a} (x ∷ xs) m = elim (Bool-cases (p x)) [
    | inl e ↦ kept (rw e at m) (Memᴰ-filter xs)
    | inr e ↦ Memᴰ.tail (Memᴰ-filter xs (rw e at m))
  ]
    where
      kept : Memᴰ a (x ∷ filter p xs) → (Memᴰ a (filter p xs) → Memᴰ a xs) → Memᴰ a (x ∷ xs)
      kept (Memᴰ.head e) ih = Memᴰ.head e
      kept (Memᴰ.tail k) ih = Memᴰ.tail (ih k)

  pub filter-All {κ} : (P : A → Type κ) (xs : List A) → All P xs → All P (filter p xs)
  filter-All P [] h = tt
  filter-All P (x ∷ xs) (q, h) = elim (Bool-cases (p x)) [
    | inl e ↦ rw e (q, filter-All P xs h)
    | inr e ↦ rw e (filter-All P xs h)
  ]

  pub filter_holds : (xs : List A) → All (λ a. p a ≡ true) (filter p xs)
  filter_holds [] = tt
  filter_holds (x ∷ xs) = elim (Bool-cases (p x)) [
    | inl e ↦ rw e (e, filter_holds xs)
    | inr e ↦ rw e (filter_holds xs)
  ]

  pub filter-HasDistinctKeys :
      (key : A → String) (xs : List A) → HasDistinctKeys key xs → HasDistinctKeys key (filter p xs)
  filter-HasDistinctKeys key [] h = tt
  filter-HasDistinctKeys key (x ∷ xs) (q, h) = elim (Bool-cases (p x)) [
    | inl e ↦ rw e (filter-All _ xs q, filter-HasDistinctKeys key xs h)
    | inr e ↦ rw e (filter-HasDistinctKeys key xs h)
  ]

  pub filter-Memᴰ : {a : A} (xs : List A) → Memᴰ a xs → p a ≡ true → Memᴰ a (filter p xs)
  filter-Memᴰ (x ∷ xs) (Memᴰ.head e) h = rw (ap p (sym e) ∙ h) (Memᴰ.head e)
  filter-Memᴰ (x ∷ xs) (Memᴰ.tail m) h = elim (Bool-cases (p x)) [
    | inl e ↦ rw e (Memᴰ.tail (filter-Memᴰ xs m h))
    | inr e ↦ rw e (filter-Memᴰ xs m h)
  ]
  filter-Memᴰ [] m h = elim m [ ]

-- The catalog that the map holds for each node
unfoldable pub view_of : InMemoryCatalogCache → View
view_of s n = lookup n s.graphs

-- The origin of a value is not a key that the map lacks.
value_origin :
    (k : NodeId) (c : Catalog) (m : HashMap)
    → All (λ (e : NodeId × Catalog). k.id ≢ e.0.id) m
    → All (λ (e : NodeId × Catalog). origin_id e.1 ≡ e.0.id) m
    → Memᴰ c (values m)
    → k.id ≢ origin_id c
value_origin k c [] p h m = elim m [ ]
value_origin k c ((i, d) ∷ m) (p, ps) (q, qs) (Memᴰ.head e) = λ s. p (s ∙ ap origin_id e ∙ q)
value_origin k c ((i, d) ∷ m) (p, ps) (q, qs) (Memᴰ.tail n) = value_origin k c m ps qs n

-- A value of the map is what its origin node maps to.
lookup_value :
    (c : Catalog) (m : HashMap)
    → All (λ (e : NodeId × Catalog). origin_id e.1 ≡ e.0.id) m
    → HasDistinctKeys key_id m
    → Memᴰ c (values m)
    → lookup c.origin_node m ≡ some c
unfolding lookup
lookup_value c [] h g k = elim k [ ]
lookup_value c ((i, d) ∷ m) (h, hs) (g, gs) (Memᴰ.head e) =
    rw ((eq_iff i.id (origin_id c)).1 (sym h ∙ ap origin_id (sym e))) (ap some (sym e))
lookup_value c ((i, d) ∷ m) (h, hs) (g, gs) (Memᴰ.tail k) =
    ground (arith, lookup_value c m hs gs k, value_origin i c m g hs k, eq_iff i.id (origin_id c))

value_lookup : (n : NodeId) (c : Catalog) (m : HashMap) → lookup n m ≡ some c → Memᴰ c (values m)
unfolding lookup
value_lookup n c [] e = absurd (ground arith)
value_lookup n c ((i, d) ∷ m) e = elim (Bool-cases (i.id == n.id)) [
  | inl t ↦ Memᴰ.head (sym (some-injective d c (rw t at e)))
  | inr t ↦ Memᴰ.tail (value_lookup n c m (rw t at e))
]

-- The values have distinct origins, because the keys are distinct.
origins_apart :
    (k : NodeId) (m : HashMap)
    → All (λ (e : NodeId × Catalog). k.id ≢ e.0.id) m
    → All (λ (e : NodeId × Catalog). origin_id e.1 ≡ e.0.id) m
    → All (λ c. k.id ≢ origin_id c) (values m)
origins_apart k [] p h = tt
origins_apart k ((i, d) ∷ m) (p, ps) (q, qs) = ((λ s. p (s ∙ q)), origins_apart k m ps qs)

values-distinct :
    (m : HashMap)
    → All (λ (e : NodeId × Catalog). origin_id e.1 ≡ e.0.id) m
    → HasDistinctKeys key_id m
    → HasDistinctKeys origin_id (values m)
values-distinct [] h g = tt
values-distinct ((i, d) ∷ m) (h, hs) (g, gs) = (
  subst (λ s. All (λ c. s ≢ origin_id c) (values m)) (sym h) (origins_apart i m g hs),
  values-distinct m hs gs,
)

pub view_origin :
    (s : InMemoryCatalogCache) (n : NodeId) (c : Catalog)
    → IsKeyed s.graphs
    → view_of s n ≡ some c
    → origin_id c ≡ n.id
unfolding view_of
view_origin s n c h e = lookup_origin n c s.graphs h.by_origin e

pub upsert_result : (c : Catalog) (s : InMemoryCatalogCache) → (upsert c s).0 ≡ ok tt
unfolding upsert
upsert_result c s = refl

pub upsert_sound :
    (c : Catalog) (s : InMemoryCatalogCache) → IsKeyed s.graphs → IsKeyed (upsert c s).1.graphs
unfolding upsert
upsert_sound c s h = insert-IsKeyed c s.graphs h

pub view-upsert :
    (c : Catalog) (s : InMemoryCatalogCache) (n : NodeId)
    → view_of (upsert c s).1 n ≡ (if node_id_eq c.origin_node n then some c else view_of s n)
unfolding upsert view_of
view-upsert c s n = lookup-insert c.origin_node n c s.graphs

pub delete_result :
    (k : NodeId) (s : InMemoryCatalogCache) → (delete k s).0 ≡ ok (is_some (view_of s k))
unfolding delete view_of
delete_result k s = refl

pub delete_sound :
    (k : NodeId) (s : InMemoryCatalogCache) → IsKeyed s.graphs → IsKeyed (delete k s).1.graphs
unfolding delete
delete_sound k s h = remove-IsKeyed k s.graphs h

pub view-delete :
    (k : NodeId) (s : InMemoryCatalogCache) (n : NodeId)
    → IsKeyed s.graphs
    → view_of (delete k s).1 n ≡ (if node_id_eq k n then none else view_of s n)
unfolding delete view_of
view-delete k s n h = lookup-remove k n s.graphs h.distinct

query-Enumerates :
    (o : Option NodeId) (s : InMemoryCatalogCache)
    → IsKeyed s.graphs
    → Enumerates (view_of s) o (filter (matches o) (values s.graphs))
unfolding view_of
query-Enumerates o s h = record {
  held = λ c m. lookup_value c s.graphs h.by_origin h.distinct (Memᴰ-filter (matches o) _ m);
  matched =
      λ c m. All-Memᴰ (λ d. matches o d ≡ true) _ (filter_holds (matches o) (values s.graphs)) m;
  complete = λ c e p. filter-Memᴰ (matches o) _ (value_lookup c.origin_node c s.graphs e) p;
  distinct =
      filter-HasDistinctKeys (matches o) origin_id _
        (values-distinct s.graphs h.by_origin h.distinct);
}

pub query_result :
    (q : CatalogQuery) (s : InMemoryCatalogCache)
    → IsKeyed s.graphs
    → (xs : List Catalog) × (query q s ≡ ok (paginate q xs))
      × Enumerates (view_of s) q.origin_node xs
unfolding query
query_result q s h =
    (filter (matches q.origin_node) (values s.graphs), refl, query-Enumerates q.origin_node s h)

abbrev pub memory_laws : IsCache memory
memory_laws = record {
  IsSound = λ s. IsKeyed s.graphs;
  view = view_of;
  view_origin = view_origin;
  upsert_result = λ c s h. upsert_result c s;
  upsert_sound = upsert_sound;
  view-upsert = λ c s n h. view-upsert c s n;
  delete_result = λ k s h. delete_result k s;
  delete_sound = delete_sound;
  view-delete = view-delete;
  query_result = query_result;
}
