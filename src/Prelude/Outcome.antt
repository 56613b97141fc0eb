-- ===== src/Prelude/Outcome.antt =====
-- Rust's `Result`, and the `?` operator as its bind.
use mathlib.Core.Path.{◌≡◌, refl}
use mathlib.Core.Option.{Option, none, some}
use native.Mathlib.Omega.{arith}

pub data Result {ℓ} (Value Error : Type ℓ) : Type ℓ where
  ok : Value → Result Value Error
  err : Error → Result Value Error

module _ {ℓ} {Value Error : Type ℓ} where
  -- `Option::ok_or`
  abbrev pub ok_or : Option Value → Error → Result Value Error
  ok_or none reason = err reason
  ok_or (some value) reason = ok value

  pub ok_or-eq-ok :
      (o : Option Value) (reason : Error) {value : Value}
      → ok_or o reason ≡ ok value
      → o ≡ some value
  ok_or-eq-ok none reason e = ground arith
  ok_or-eq-ok (some other) reason e = ground arith

  pub ok-injective :
      {left right : Value} → ◌≡◌ {A = Result Value Error} (ok left) (ok right) → left ≡ right
  ok-injective e = ground (arith, e)

  -- `Result::map_err`
  module _ {Other : Type ℓ} where
    abbrev pub map_err : (Error → Other) → Result Value Error → Result Value Other
    map_err reword (err reason) = err (reword reason)
    map_err reword (ok value) = ok value

    pub map_err-eq-ok :
        (reword : Error → Other) (outcome : Result Value Error) {value : Value}
        → map_err reword outcome ≡ ok value
        → outcome ≡ ok value
    map_err-eq-ok reword (err reason) e = ground arith
    map_err-eq-ok reword (ok other) e = ground arith

  -- `?`: what follows is run on the value, and an error ends the function.
  module _ {Next : Type ℓ} where
    infixl 5 ◌>>=◌
    abbrev pub ◌>>=◌ : Result Value Error → (Value → Result Next Error) → Result Next Error
    err reason >>= next = err reason
    ok value >>= next = next value

    infixl 5 ◌>>◌
    abbrev pub ◌>>◌ : Result Value Error → Result Next Error → Result Next Error
    outcome >> then' = outcome >>= (λ value. then')

    -- What a chain that succeeded has gone through
    pub >>=-eq-ok :
        (outcome : Result Value Error) (next : Value → Result Next Error) {last : Next}
        → outcome >>= next ≡ ok last
        → (value : Value) × (outcome ≡ ok value) × (next value ≡ ok last)
    >>=-eq-ok (err reason) next e = ground arith
    >>=-eq-ok (ok value) next e = (value, refl, e)
