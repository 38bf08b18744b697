-- ===== src/Raft/Error.antt =====
-- crates/aresadb-raft/src/error.rs: openraft's storage errors, and how backend and bincode errors
-- become such. `LogId` is openraft's. The signature of the snapshot that an error names is left
-- out.
use aresadb.Prelude.{Option, none, some}
use aresadb.Pd.Error.{CatalogError}
use aresadb.Core.Error.{Error, Outcome}

pub data ErrorSubject (LogId : Type 0) : Type 0 where
  state_machine store vote logs : ErrorSubject LogId
  log : LogId → ErrorSubject LogId
  snapshot : ErrorSubject LogId

pub data ErrorVerb : Type 0 where
  read write delete : ErrorVerb

-- What failed below: the backend, bincode, or the catalog of the placement driver.
pub data Cause : Type 0 where
  backend : Error → Cause
  bincode : Cause
  catalog : CatalogError → Cause

pub data StorageError (LogId : Type 0) : Type 0 where
  io : ErrorSubject LogId → ErrorVerb → Cause → StorageError LogId

pub data Stored {ℓ} (LogId : Type 0) (A : Type ℓ) : Type ℓ where
  ok : A → Stored LogId A
  err : StorageError LogId → Stored LogId A
  panicked : Stored LogId A

module _ {LogId : Type 0} where
  infixl 5 ◌>>=◌ ◌>>◌
  abbrev pub ◌>>=◌ {ℓ κ} :
      {A : Type ℓ} {B : Type κ} → Stored LogId A → (A → Stored LogId B) → Stored LogId B
  ok a >>= f = f a
  err e >>= f = err e
  panicked >>= f = panicked

  abbrev pub ◌>>◌ {ℓ} : {B : Type ℓ} → Stored LogId (Unit {0}) → Stored LogId B → Stored LogId B
  m >> k = m >>= λ _. k

  abbrev pub storage_err : Cause → StorageError LogId
  storage_err cause = io state_machine read cause

  abbrev pub storage_err_ctx : ErrorSubject LogId → ErrorVerb → Cause → StorageError LogId
  storage_err_ctx subject verb cause = io subject verb cause

  -- `map_err` on an outcome of the backend, and on a result of bincode.
  abbrev pub map_err {ℓ} : {A : Type ℓ} → (Cause → StorageError LogId) → Outcome A → Stored LogId A
  map_err f (Outcome.ok a) = ok a
  map_err f (Outcome.err e) = err (f (backend e))
  map_err f Outcome.panicked = panicked

  abbrev pub coded {ℓ} : {A : Type ℓ} → (Cause → StorageError LogId) → Option A → Stored LogId A
  coded f none = err (f bincode)
  coded f (some a) = ok a
