-- ===== src/Sorting/Laws.antt =====
-- `sort_by` sorts, keeps what holds of every element, and is stable.
use federated_catalog_rs.Prelude.{
  String, ◌≡◌, refl, Bool, true, List, [], ◌∷◌, All, filter, arith, Bool-cases, inl, inr, ◌==◌,
  eq_iff, ◌∙◌,
}
use federated_catalog_rs.Text.Order.{str_leb, str_leb_total, str_leb_trans, str_leb_refl}
use federated_catalog_rs.Sorting.{insert_by, sort_by, IsSorted}

module _ {ℓ} {A : Type ℓ} (key : A → String) where
  pub All-insert_by {κ} :
      (P : A → Type κ) (x : A) (ys : List A) → P x → All P ys → All P (insert_by key x ys)
  unfolding insert_by
  All-insert_by P x [] p h = (p, tt)
  All-insert_by P x (y ∷ ys) p (q, h) = elim (Bool-cases (str_leb (key x) (key y))) [
    | inl e ↦ rw e (p, (q, h))
    | inr e ↦ rw e (q, All-insert_by P x ys p h)
  ]

  pub All-sort_by {κ} : (P : A → Type κ) (xs : List A) → All P xs → All P (sort_by key xs)
  unfolding sort_by
  All-sort_by P [] h = tt
  All-sort_by P (x ∷ xs) (p, h) = All-insert_by P x (sort_by key xs) p (All-sort_by P xs h)

  at_most_trans :
      (s t : String) (ys : List A)
      → str_leb s t ≡ true
      → All (λ y. str_leb t (key y) ≡ true) ys
      → All (λ y. str_leb s (key y) ≡ true) ys
  at_most_trans s t [] e h = tt
  at_most_trans s t (y ∷ ys) e (p, h) = (str_leb_trans s t (key y) e p, at_most_trans s t ys e h)

  insert_by-IsSorted : (x : A) (ys : List A) → IsSorted key ys → IsSorted key (insert_by key x ys)
  unfolding insert_by
  insert_by-IsSorted x [] h = (tt, tt)
  insert_by-IsSorted x (y ∷ ys) (p, h) = elim (Bool-cases (str_leb (key x) (key y))) [
    | inl e ↦ rw e ((e, at_most_trans (key x) (key y) ys e p), (p, h))
    | inr e ↦ rw e (
      All-insert_by (λ z. str_leb (key y) (key z) ≡ true) x ys
          (ground (arith, str_leb_total (key x) (key y))) p,
      insert_by-IsSorted x ys h,
    )
  ]

  pub sort_by-IsSorted : (xs : List A) → IsSorted key (sort_by key xs)
  unfolding sort_by
  sort_by-IsSorted [] = tt
  sort_by-IsSorted (x ∷ xs) = insert_by-IsSorted x (sort_by key xs) (sort_by-IsSorted xs)

  -- Elements of one key stay in their order.
  abbrev pub has_key : String → A → Bool
  has_key k x = key x == k

  filter-insert_by :
      (k : String) (x : A) (ys : List A)
      → filter (has_key k) (insert_by key x ys) ≡ filter (has_key k) (x ∷ ys)
  unfolding insert_by
  filter-insert_by k x [] = refl
  filter-insert_by k x (y ∷ ys) =
      ground
        (arith, filter-insert_by k x ys, eq_iff (key x) k, eq_iff (key y) k, str_leb_refl (key x))

  pub filter-sort_by :
      (k : String) (xs : List A) → filter (has_key k) (sort_by key xs) ≡ filter (has_key k) xs
  unfolding sort_by
  filter-sort_by k [] = refl
  filter-sort_by k (x ∷ xs) =
      filter-insert_by k x (sort_by key xs) ∙ ground (arith, filter-sort_by k xs)
