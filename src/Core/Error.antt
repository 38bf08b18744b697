-- ===== src/Core/Error.antt =====
-- crates/aresadb-core/src/error.rs, and the outcome of a call that may return an error or panic.
use Prim.Native.String.{String}

-- The errors that wrap a foreign one carry its message.
pub data Error : Type 0 where
  io : String → Error
  not_found : Error
  invalid_write_batch : String → Error
  closed : Error
  snapshot_invalid : Error
  backend : String → Error

pub data Outcome {ℓ} (A : Type ℓ) : Type ℓ where
  ok : A → Outcome A
  err : Error → Outcome A
  panicked : Outcome A

infixl 5 ◌>>=◌ ◌>>◌
abbrev pub ◌>>=◌ {ℓ κ} : {A : Type ℓ} {B : Type κ} → Outcome A → (A → Outcome B) → Outcome B
ok a >>= f = f a
err e >>= f = err e
panicked >>= f = panicked

abbrev pub ◌>>◌ {ℓ} : {B : Type ℓ} → Outcome (Unit {0}) → Outcome B → Outcome B
m >> k = m >>= λ _. k
