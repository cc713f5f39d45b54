-- ===== src/Prelude/Outcome.antt =====
-- What a Rust function that may fail does: it returns `Ok`, returns `Err`, or panics. Arithmetic
-- overflow panics, as in a build with overflow checks, and so do `todo!` and a failed `expect`.
use popcorn.Prelude.{Option, none, some}

pub data Outcome {ℓ} (A : Type ℓ) : Type ℓ where
  ok : A → Outcome A
  err : Outcome A
  panic : Outcome A

infixl 5 ◌>>=◌ ◌>>◌
abbrev pub ◌>>=◌ {ℓ κ} : {A : Type ℓ} {B : Type κ} → Outcome A → (A → Outcome B) → Outcome B
ok a >>= f = f a
err >>= f = err
panic >>= f = panic

abbrev pub ◌>>◌ {ℓ} : {B : Type ℓ} → Outcome (Unit {0}) → Outcome B → Outcome B
m >> k = m >>= λ _. k

-- `Option::expect`.
abbrev pub expect {ℓ} : {A : Type ℓ} → Option A → Outcome A
expect none = panic
expect (some a) = ok a

-- `Option::ok_or`.
abbrev pub ok_or_err {ℓ} : {A : Type ℓ} → Option A → Outcome A
ok_or_err none = err
ok_or_err (some a) = ok a
