-- ===== src/Common/Outcome.antt =====
-- How a call of the Go code ends: with a value, with an error value, or by a panic.
use Prim.Native.String.{String}

-- The error values that the code makes, and `external` for those of other code. Messages are
-- never inspected by the program.
pub data Error : Type 0 where
  new : String → Error
  wrap : Error → String → Error
  required_argument : String → Error
  invalid_argument : String → String → Error
  internal : Error → Error
  no_rows : Error
  unique_violation : Error
  cache_miss : Error
  no_change : Error
  external : String → Error

pub data Result {ℓ} (A : Type ℓ) : Type ℓ where
  ok : A → Result A
  err : Error → Result A
  panic : Result A

infixl 5 ◌>>=◌ ◌>>◌
abbrev pub ◌>>=◌ {ℓ κ} : {A : Type ℓ} {B : Type κ} → Result A → (A → Result B) → Result B
ok a >>= f = f a
err e >>= f = err e
panic >>= f = panic

abbrev pub ◌>>◌ {ℓ} : {B : Type ℓ} → Result (Unit {0}) → Result B → Result B
m >> k = m >>= λ _. k

-- `errors.Wrap` on the error path only.
abbrev pub wrap_err {ℓ} : {A : Type ℓ} → String → Result A → Result A
wrap_err m (ok a) = ok a
wrap_err m (err e) = err (wrap e m)
wrap_err m panic = panic
