-- ===== src/Sorting/Unique.antt =====
-- With distinct keys the sorted list depends on the elements alone, not on their order.
use mathlib.Core.List.{Memᴰ}
use federated_catalog_rs.Prelude.{
  String, ◌≡◌, refl, ◌≢◌, true, List, [], ◌∷◌, All, Bool-cases, inl, inr, ap, sym, ◌∙◌,
}
use federated_catalog_rs.Text.Order.{str_leb, str_leb_antisymm}
use federated_catalog_rs.Sorting.{insert_by, sort_by, IsSorted, HasDistinctKeys}
use federated_catalog_rs.Sorting.Laws.{sort_by-IsSorted, All-insert_by, All-sort_by}

pub All-Memᴰ {ℓ κ} :
    {A : Type ℓ} (P : A → Type κ) {a : A} (xs : List A) → All P xs → Memᴰ a xs → P a
All-Memᴰ P [] h m = elim m [ ]
All-Memᴰ P (x ∷ xs) (p, h) (Memᴰ.head e) = rw e p
All-Memᴰ P (x ∷ xs) (p, h) (Memᴰ.tail m) = All-Memᴰ P xs h m

Memᴰ-cons_cons {ℓ} :
    {A : Type ℓ} {a x : A} {l : List A} (y : A) → Memᴰ a (x ∷ l) → Memᴰ a (x ∷ y ∷ l)
Memᴰ-cons_cons y (Memᴰ.head e) = Memᴰ.head e
Memᴰ-cons_cons y (Memᴰ.tail m) = Memᴰ.tail (Memᴰ.tail m)

module _ {ℓ} {A : Type ℓ} (key : A → String) where
  insert_by-Memᴰ : {a : A} (x : A) (ys : List A) → Memᴰ a (x ∷ ys) → Memᴰ a (insert_by key x ys)
  unfolding insert_by
  insert_by-Memᴰ x [] m = m
  insert_by-Memᴰ x (y ∷ ys) (Memᴰ.head e) = elim (Bool-cases (str_leb (key x) (key y))) [
    | inl t ↦ rw t (Memᴰ.head e)
    | inr t ↦ rw t (Memᴰ.tail (insert_by-Memᴰ x ys (Memᴰ.head e)))
  ]
  insert_by-Memᴰ x (y ∷ ys) (Memᴰ.tail (Memᴰ.head e)) =
      elim (Bool-cases (str_leb (key x) (key y))) [
        | inl t ↦ rw t (Memᴰ.tail (Memᴰ.head e))
        | inr t ↦ rw t (Memᴰ.head e)
      ]
  insert_by-Memᴰ x (y ∷ ys) (Memᴰ.tail (Memᴰ.tail m)) =
      elim (Bool-cases (str_leb (key x) (key y))) [
        | inl t ↦ rw t (Memᴰ.tail (Memᴰ.tail m))
        | inr t ↦ rw t (Memᴰ.tail (insert_by-Memᴰ x ys (Memᴰ.tail m)))
      ]

  Memᴰ-insert_by : {a : A} (x : A) (ys : List A) → Memᴰ a (insert_by key x ys) → Memᴰ a (x ∷ ys)
  unfolding insert_by
  Memᴰ-insert_by x [] m = m
  Memᴰ-insert_by {a} x (y ∷ ys) m = elim (Bool-cases (str_leb (key x) (key y))) [
    | inl t ↦ rw t at m
    | inr t ↦ behind (rw t at m) (Memᴰ-insert_by x ys)
  ]
    where
      behind :
          Memᴰ a (y ∷ insert_by key x ys)
          → (Memᴰ a (insert_by key x ys) → Memᴰ a (x ∷ ys))
          → Memᴰ a (x ∷ y ∷ ys)
      behind (Memᴰ.head e) ih = Memᴰ.tail (Memᴰ.head e)
      behind (Memᴰ.tail k) ih = Memᴰ-cons_cons y (ih k)

  pub sort_by-Memᴰ : {a : A} (xs : List A) → Memᴰ a xs → Memᴰ a (sort_by key xs)
  unfolding sort_by
  sort_by-Memᴰ [] m = m
  sort_by-Memᴰ (x ∷ xs) (Memᴰ.head e) = insert_by-Memᴰ x (sort_by key xs) (Memᴰ.head e)
  sort_by-Memᴰ (x ∷ xs) (Memᴰ.tail m) =
      insert_by-Memᴰ x (sort_by key xs) (Memᴰ.tail (sort_by-Memᴰ xs m))

  pub Memᴰ-sort_by : {a : A} (xs : List A) → Memᴰ a (sort_by key xs) → Memᴰ a xs
  unfolding sort_by
  Memᴰ-sort_by [] m = m
  Memᴰ-sort_by {a} (x ∷ xs) m = behind (Memᴰ-insert_by x (sort_by key xs) m) (Memᴰ-sort_by xs)
    where
      behind : Memᴰ a (x ∷ sort_by key xs) → (Memᴰ a (sort_by key xs) → Memᴰ a xs) → Memᴰ a (x ∷ xs)
      behind (Memᴰ.head e) ih = Memᴰ.head e
      behind (Memᴰ.tail k) ih = Memᴰ.tail (ih k)

  insert_by-HasDistinctKeys :
      (x : A) (ys : List A)
      → All (λ y. key x ≢ key y) ys
      → HasDistinctKeys key ys
      → HasDistinctKeys key (insert_by key x ys)
  unfolding insert_by
  insert_by-HasDistinctKeys x [] p h = (tt, tt)
  insert_by-HasDistinctKeys x (y ∷ ys) (q, p) (r, h) = elim (Bool-cases (str_leb (key x) (key y))) [
    | inl e ↦ rw e ((q, p), (r, h))
    | inr e ↦ rw e (
      All-insert_by key (λ z. key y ≢ key z) x ys (λ s. q (sym s)) r,
      insert_by-HasDistinctKeys x ys p h,
    )
  ]

  pub sort_by-HasDistinctKeys :
      (xs : List A) → HasDistinctKeys key xs → HasDistinctKeys key (sort_by key xs)
  unfolding sort_by
  sort_by-HasDistinctKeys [] h = tt
  sort_by-HasDistinctKeys (x ∷ xs) (p, h) =
      insert_by-HasDistinctKeys x (sort_by key xs) (All-sort_by key _ xs p)
        (sort_by-HasDistinctKeys xs h)

  same_head :
      (x y : A) (xs ys : List A)
      → IsSorted key (x ∷ xs)
      → IsSorted key (y ∷ ys)
      → HasDistinctKeys key (y ∷ ys)
      → Memᴰ x (y ∷ ys)
      → Memᴰ y (x ∷ xs)
      → x ≡ y
  same_head x y xs ys s t d (Memᴰ.head e) m = e
  same_head x y xs ys s t d (Memᴰ.tail n) (Memᴰ.head e) = sym e
  same_head x y xs ys s t d (Memᴰ.tail n) (Memᴰ.tail m) = absurd (
      All-Memᴰ (λ z. key y ≢ key z) ys d.0 n
        (str_leb_antisymm (key y) (key x) (All-Memᴰ (λ z. str_leb (key y) (key z) ≡ true) ys t.0 n)
          (All-Memᴰ (λ z. str_leb (key x) (key z) ≡ true) xs s.0 m)))

  -- An element of the rest is not the head.
  behind_head :
      {a : A} (x y : A) (xs ys : List A)
      → HasDistinctKeys key (x ∷ xs)
      → x ≡ y
      → Memᴰ a xs
      → Memᴰ a (y ∷ ys)
      → Memᴰ a ys
  behind_head x y xs ys d e m (Memᴰ.tail n) = n
  behind_head x y xs ys d e m (Memᴰ.head p) =
      absurd (All-Memᴰ (λ z. key x ≢ key z) xs d.0 m (ap key (e ∙ sym p)))

  sorted_unique :
      (xs ys : List A)
      → IsSorted key xs
      → HasDistinctKeys key xs
      → IsSorted key ys
      → HasDistinctKeys key ys
      → ((a : A) → Memᴰ a xs → Memᴰ a ys)
      → ((a : A) → Memᴰ a ys → Memᴰ a xs)
      → xs ≡ ys
  sorted_unique [] [] s d t e f g = refl
  sorted_unique [] (y ∷ ys) s d t e f g = elim (g y (Memᴰ.head refl)) [ ]
  sorted_unique (x ∷ xs) [] s d t e f g = elim (f x (Memᴰ.head refl)) [ ]
  sorted_unique (x ∷ xs) (y ∷ ys) s d t e f g =
      let first = same_head x y xs ys s t e (f x (Memᴰ.head refl)) (g y (Memᴰ.head refl)) in
      let rest =
        sorted_unique xs ys s.1 d.1 t.1 e.1
          (λ a m. behind_head x y xs ys d first m (f a (Memᴰ.tail m)))
          (λ a m. behind_head y x ys xs e (sym first) m (g a (Memᴰ.tail m))) in
      cc (first, rest)

  pub sort_by_unique :
      (xs ys : List A)
      → HasDistinctKeys key xs
      → HasDistinctKeys key ys
      → ((a : A) → Memᴰ a xs → Memᴰ a ys)
      → ((a : A) → Memᴰ a ys → Memᴰ a xs)
      → sort_by key xs ≡ sort_by key ys
  sort_by_unique xs ys d e f g =
      sorted_unique (sort_by key xs) (sort_by key ys) (sort_by-IsSorted key xs)
        (sort_by-HasDistinctKeys xs d) (sort_by-IsSorted key ys) (sort_by-HasDistinctKeys ys e)
        (λ a m. sort_by-Memᴰ ys (f a (Memᴰ-sort_by xs m)))
        (λ a m. sort_by-Memᴰ xs (g a (Memᴰ-sort_by ys m)))
