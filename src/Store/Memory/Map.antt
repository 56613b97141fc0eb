-- ===== src/Store/Memory/Map.antt =====
-- The map of the in-memory cache: lookups after insertions and removals, and its invariant.
use federated_catalog_rs.Prelude.{
  String, ◌≡◌, refl, ◌≢◌, none, some, [], ◌∷◌, All, if◌then◌else◌, eq_iff, arith, text-cases, inl,
  inr, subst,
}
use federated_catalog_rs.Sorting.{HasDistinctKeys}
use federated_catalog_rs.Catalog.{Catalog, NodeId, node_id_eq}
use federated_catalog_rs.Store.Contract.{origin_id}
use federated_catalog_rs.Store.Memory.{HashMap, insert, lookup, remove}

abbrev pub key_id : NodeId × Catalog → String
key_id e = e.0.id

-- Each catalog stands under its own origin node, and each node has one entry.
pub record IsKeyed (m : HashMap) : Type 0 where
  pub by_origin : All (λ (e : NodeId × Catalog). origin_id e.1 ≡ e.0.id) m
  pub distinct : HasDistinctKeys key_id m

pub lookup-insert :
    (k j : NodeId) (c : Catalog) (m : HashMap)
    → lookup j (insert k c m) ≡ (if node_id_eq k j then some c else lookup j m)
unfolding lookup insert
lookup-insert k j c [] = refl
lookup-insert k j c ((i, d) ∷ m) =
    ground (arith, lookup-insert k j c m, eq_iff i.id k.id, eq_iff i.id j.id, eq_iff k.id j.id)

lookup_absent :
    (k : NodeId) (m : HashMap) → All (λ (e : NodeId × Catalog). k.id ≢ e.0.id) m → lookup k m ≡ none
unfolding lookup
lookup_absent k [] h = refl
lookup_absent k ((i, d) ∷ m) (p, h) = ground (arith, lookup_absent k m h, eq_iff i.id k.id)

pub lookup-remove :
    (k j : NodeId) (m : HashMap)
    → HasDistinctKeys key_id m
    → lookup j (remove k m) ≡ (if node_id_eq k j then none else lookup j m)
unfolding lookup remove
lookup-remove k j [] h = ground arith
lookup-remove k j ((i, d) ∷ m) (p, h) = ground (
  arith,
  lookup-remove k j m h,
  lookup_absent i m p,
  lookup_absent j m,
  eq_iff i.id k.id,
  eq_iff i.id j.id,
  eq_iff k.id j.id,
)

All-insert {κ} :
    (P : NodeId × Catalog → Type κ) (k : NodeId) (c : Catalog) (m : HashMap)
    → P (k, c)
    → All P m
    → All P (insert k c m)
unfolding insert
All-insert P k c [] p h = (p, tt)
All-insert P k c ((i, d) ∷ m) p (q, h) = elim (text-cases i.id k.id) [
  | inl (e, same) ↦ rw e (p, h)
  | inr (e, other) ↦ rw e (q, All-insert P k c m p h)
]

All-remove {κ} :
    (P : NodeId × Catalog → Type κ) (k : NodeId) (m : HashMap) → All P m → All P (remove k m)
unfolding remove
All-remove P k [] h = tt
All-remove P k ((i, d) ∷ m) (q, h) = elim (text-cases i.id k.id) [
  | inl (e, same) ↦ rw e h
  | inr (e, other) ↦ rw e (q, All-remove P k m h)
]

insert-distinct :
    (k : NodeId) (c : Catalog) (m : HashMap)
    → HasDistinctKeys key_id m
    → HasDistinctKeys key_id (insert k c m)
unfolding insert
insert-distinct k c [] h = (tt, tt)
insert-distinct k c ((i, d) ∷ m) (p, h) = elim (text-cases i.id k.id) [
  | inl (e, same) ↦ rw e (subst (λ s. All (λ (x : NodeId × Catalog). s ≢ x.0.id) m) same p, h)
  | inr (e, other) ↦ rw e (All-insert _ k c m other p, insert-distinct k c m h)
]

remove-distinct :
    (k : NodeId) (m : HashMap) → HasDistinctKeys key_id m → HasDistinctKeys key_id (remove k m)
unfolding remove
remove-distinct k [] h = tt
remove-distinct k ((i, d) ∷ m) (p, h) = elim (text-cases i.id k.id) [
  | inl (e, same) ↦ rw e h
  | inr (e, other) ↦ rw e (All-remove _ k m p, remove-distinct k m h)
]

pub insert-IsKeyed : (c : Catalog) (m : HashMap) → IsKeyed m → IsKeyed (insert c.origin_node c m)
insert-IsKeyed c m h = record {
  by_origin = All-insert _ c.origin_node c m refl h.by_origin;
  distinct = insert-distinct c.origin_node c m h.distinct;
}

pub remove-IsKeyed : (k : NodeId) (m : HashMap) → IsKeyed m → IsKeyed (remove k m)
remove-IsKeyed k m h = record {
  by_origin = All-remove _ k m h.by_origin;
  distinct = remove-distinct k m h.distinct;
}

pub lookup_origin :
    (n : NodeId) (c : Catalog) (m : HashMap)
    → All (λ (e : NodeId × Catalog). origin_id e.1 ≡ e.0.id) m
    → lookup n m ≡ some c
    → origin_id c ≡ n.id
unfolding lookup
lookup_origin n c [] h e = ground arith
lookup_origin n c ((i, d) ∷ m) (p, h) e = ground (arith, lookup_origin n c m h, eq_iff i.id n.id)
