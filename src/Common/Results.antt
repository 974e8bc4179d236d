-- ===== src/Common/Results.antt =====
-- Go's pair of a value and an error, as a sum, with its monad.
use mathlib.Core.Path.{◌≡◌, refl}

-- An error of a store: `sql.ErrNoRows`, or any other.
pub data Error : Type 0 where
  no_rows : Error
  failed : Error

pub data Result (Failure : Type 0) (Value : Type 0) : Type 0 where
  err : Failure → Result Failure Value
  ok : Value → Result Failure Value

module _ {Failure Value Next : Type 0} where
  infixl 5 ◌>>=◌
  abbrev pub ◌>>=◌ : Result Failure Value → (Value → Result Failure Next) → Result Failure Next
  err failure >>= next = err failure
  ok value >>= next = next value

  -- A chain that succeeds went through a first step that did.
  pub >>=-eq-ok :
      (first : Result Failure Value) (next : Value → Result Failure Next) {last : Next}
      → (first >>= next) ≡ ok last
      → (value : Value) × (first ≡ ok value) × (next value ≡ ok last)
  >>=-eq-ok (err failure) next done = cc
  >>=-eq-ok (ok value) next done = (value, refl, done)
