-- ===== src/Task.antt =====
-- A call that awaits: it takes the state of the outside world, and returns a result and the next
-- state. `?` on such a call ends the caller with the error.
use federated_catalog_rs.Prelude.{
  Result, ok, err, ◌≡◌, refl, arith, Bool, true, false, if◌then◌else◌,
}

abbrev pub Task {ℓ} : Type ℓ → Type ℓ → Type ℓ → Type ℓ
Task W A E = W → Result A E × W

module _ {ℓ} {W A B E : Type ℓ} where
  abbrev pub continue : Result A E × W → (A → Task W B E) → Result B E × W
  continue (ok a, w) f = f a w
  continue (err e, w) f = (err e, w)

  infixl 5 ◌>>=◌ ◌>>◌
  abbrev pub ◌>>=◌ : Task W A E → (A → Task W B E) → Task W B E
  (m >>= f) w = continue (m w) f

  abbrev pub ◌>>◌ : Task W A E → Task W B E → Task W B E
  m >> k = m >>= λ _. k

module _ {ℓ} {W A E : Type ℓ} where
  -- a result that the call already has
  abbrev pub lift : Result A E → Task W A E
  lift r w = (r, w)

  abbrev pub pure : A → Task W A E
  pure a w = (ok a, w)

  -- a call that cannot fail, such as reading the clock
  abbrev pub always : (W → A × W) → Task W A E
  always f w = let (a, w') = f w in (ok a, w')

-- Inversion of a successful call: of its first part, and of what follows.
module _ {ℓ} {W A B E : Type ℓ} where
  pub >>=-eq-ok :
      (m : Task W A E) (f : A → Task W B E) (w : W) {b : B} {w2 : W}
      → (m >>= f) w ≡ (ok b, w2)
      → (a : A) × (w1 : W) × (m w ≡ (ok a, w1)) × (f a w1 ≡ (ok b, w2))
  >>=-eq-ok m f w h = continue-eq-ok (m w) f h
    where
      continue-eq-ok :
          (r : Result A E × W) (f : A → Task W B E) {b : B} {w2 : W}
          → continue r f ≡ (ok b, w2)
          → (a : A) × (w1 : W) × (r ≡ (ok a, w1)) × (f a w1 ≡ (ok b, w2))
      continue-eq-ok (ok a, w) f h = (a, w, refl, h)
      continue-eq-ok (err e, w) f h = ground arith

  pub lift_bind-eq-ok :
      (r : Result A E) (f : A → Task W B E) (w : W) {b : B} {w2 : W}
      → (lift r >>= f) w ≡ (ok b, w2)
      → (a : A) × (r ≡ ok a) × (f a w ≡ (ok b, w2))
  lift_bind-eq-ok (ok a) f w h = (a, refl, h)
  lift_bind-eq-ok (err e) f w h = ground arith

-- A test that ends the call with an error did not hold if the call succeeded.
pub guard-eq-ok {ℓ} :
    {W B E : Type ℓ} (b : Bool) (e : E) (m : Task W B E) (w : W) {x : B} {w2 : W}
    → (if b then lift (err e) else m) w ≡ (ok x, w2)
    → (b ≡ false) × (m w ≡ (ok x, w2))
guard-eq-ok true e m w h = ground arith
guard-eq-ok false e m w h = (refl, h)
