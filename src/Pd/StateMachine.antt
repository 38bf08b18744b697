-- ===== src/Pd/StateMachine.antt =====
-- crates/aresadb-pd/src/state_machine.rs: the catalog with its rows on a backend. The backend is the
-- in-memory engine. bincode is a parameter: serialising and reading back may both fail.
pub mod Recovery
pub mod Mirror
pub mod Rows
pub mod Applies
pub mod Nodes
pub mod NodeRows
pub mod Disk
pub mod Progress
pub mod MetaRow
pub mod Reopen
pub mod Scanned
pub mod Restored
mod Tests
use aresadb.Prelude.{max, Option, none, some, List, [], ◌∷◌}
use aresadb.Ord.Nat.{nat_ord}
use aresadb.Ord.Bytes.{Bytes}
use aresadb.Map
use aresadb.Core.Error.{Error, Outcome}
use aresadb.Core.KeyRange
use aresadb.Core.WriteBatch
use aresadb.Core.WriteBatch.{WriteBatch}
use aresadb.Core.Memory
use aresadb.Core.Memory.{MemoryBackend, KeyValue}
use aresadb.Pd.Types.{RangeId, NodeInfo, RangeDescriptor, incr}
use aresadb.Pd.Error.{Result, CatalogError}
use aresadb.Pd.Command.{PdCommand, PdResponse, done, range}
use aresadb.Pd.Catalog.State.{Catalog, get_range, get_node}
use aresadb.Pd.Catalog.Apply
use aresadb.Pd.Catalog.Load.{load}
use aresadb.Pd.Persist.{
  range_prefix, node_prefix, range_key, node_key, range_id_from_key, node_id_from_key,
  prefix_upper_bound,
}

pub data PdApplyError : Type 0 where
  catalog : CatalogError → PdApplyError
  backend : Error → PdApplyError
  encode : PdApplyError

pub data Applied {ℓ} (A : Type ℓ) : Type ℓ where
  ok : A → Applied A
  err : PdApplyError → Applied A
  panicked : Applied A

infixl 5 ◌>>=◌ ◌>>◌
abbrev pub ◌>>=◌ {ℓ κ} : {A : Type ℓ} {B : Type κ} → Applied A → (A → Applied B) → Applied B
ok a >>= f = f a
err e >>= f = err e
panicked >>= f = panicked

abbrev pub ◌>>◌ {ℓ} : {B : Type ℓ} → Applied (Unit {0}) → Applied B → Applied B
m >> k = m >>= λ _. k

-- `?` on an outcome of the backend, on a result of the catalog and on one of bincode, and `expect`.
abbrev pub from_backend {ℓ} : {A : Type ℓ} → Outcome A → Applied A
from_backend (Outcome.ok a) = ok a
from_backend (Outcome.err e) = err (backend e)
from_backend Outcome.panicked = panicked

abbrev pub from_catalog {ℓ} : {A : Type ℓ} → Result A → Applied A
from_catalog (Result.ok a) = ok a
from_catalog (Result.err e) = err (catalog e)
from_catalog Result.panicked = panicked

abbrev pub from_bincode {ℓ} : {A : Type ℓ} → Option A → Applied A
from_bincode none = err encode
from_bincode (some a) = ok a

abbrev pub expect {ℓ} : {A : Type ℓ} → Option A → Applied A
expect none = panicked
expect (some a) = ok a

-- `bincode::serialize` and `deserialize` at the two types of rows; none is an error.
pub record Bincode : Type 0 where
  pub serialize_range : RangeDescriptor → Option Bytes
  pub deserialize_range : Bytes → Option RangeDescriptor
  pub serialize_node : NodeInfo → Option Bytes
  pub deserialize_node : Bytes → Option NodeInfo

pub record PdStateMachine : Type 0 where
  pub store : MemoryBackend
  pub catalog : Catalog

abbrev pub pd_raft_meta_key : Bytes
pd_raft_meta_key =
    255 ∷ b'/' ∷ b'p' ∷ b'd' ∷ b'/' ∷ b's' ∷ b'm' ∷ b'/' ∷ b'm' ∷ b'e' ∷ b't' ∷ b'a' ∷ []

abbrev pub put_meta : Option Bytes → WriteBatch → WriteBatch
put_meta none batch = batch
put_meta (some meta) batch = WriteBatch.put batch pd_raft_meta_key meta

-- `write_batch` and `flush`, with `?` on both.
unfoldable pub commit : MemoryBackend → WriteBatch → MemoryBackend × Applied (Unit {0})
commit store batch =
    let written = Memory.write_batch store batch in
    (written.0, (do from_backend written.1; from_backend (Memory.flush written.0)))

module _ (b : Bincode) where
  unfoldable pub put_range : WriteBatch → RangeDescriptor → Applied WriteBatch
  put_range batch desc = do
    value ← from_bincode (b.serialize_range desc)
    ok (WriteBatch.put batch (range_key desc.range_id) value)

  unfoldable pub put_node : WriteBatch → NodeInfo → Applied WriteBatch
  put_node batch info = do
    value ← from_bincode (b.serialize_node info)
    ok (WriteBatch.put batch (node_key info.node_id) value)

  abbrev pub response_range : PdResponse → Applied RangeDescriptor
  response_range (range r) = ok r
  response_range resp = panicked

  unfoldable pub build_write_batch : PdCommand → PdResponse → Catalog → Applied WriteBatch
  build_write_batch (PdCommand.register_node info) resp c = do
    persisted ← expect (get_node c info.node_id)
    put_node WriteBatch.new persisted
  build_write_batch (PdCommand.heartbeat_node node_id t) resp c = do
    persisted ← expect (get_node c node_id)
    put_node WriteBatch.new persisted
  build_write_batch (PdCommand.create_range desc) resp c = put_range WriteBatch.new desc
  build_write_batch (PdCommand.split_range parent_range_id key) resp c = do
    rhs ← response_range resp
    parent ← expect (get_range c parent_range_id)
    batch ← put_range WriteBatch.new parent
    put_range batch rhs
  build_write_batch (PdCommand.merge_ranges left right) resp c = do
    merged_left ← expect (get_range c left)
    batch ← put_range WriteBatch.new merged_left
    ok (WriteBatch.delete batch (range_key right))
  build_write_batch (PdCommand.update_membership range_id reps epoch) resp c = do
    desc ← expect (get_range c range_id)
    put_range WriteBatch.new desc
  build_write_batch (PdCommand.update_lease range_id lease) resp c = do
    desc ← expect (get_range c range_id)
    put_range WriteBatch.new desc

  -- The write of a batch, if there is one: the catalog has changed by then, whatever happens.
  abbrev pub commit_built :
      PdStateMachine
      → Option Bytes
      → PdResponse
      → Applied WriteBatch
      → PdStateMachine × Applied PdResponse
  commit_built sm meta resp (ok batch) =
      let r = commit sm.store (put_meta meta batch) in
      (record sm { store = r.0 }, (do r.1; ok resp))
  commit_built sm meta resp (err e) = (sm, err e)
  commit_built sm meta resp panicked = (sm, panicked)

  abbrev pub commit_applied :
      PdStateMachine
      → PdCommand
      → Option Bytes
      → Applied PdResponse
      → PdStateMachine × Applied PdResponse
  commit_applied sm cmd meta (ok resp) =
      commit_built sm meta resp (build_write_batch cmd resp sm.catalog)
  commit_applied sm cmd meta (err e) = (sm, err e)
  commit_applied sm cmd meta panicked = (sm, panicked)

  unfoldable pub apply_inner :
      PdStateMachine → PdCommand → Option Bytes → PdStateMachine × Applied PdResponse
  apply_inner sm cmd meta =
      let r = Apply.apply sm.catalog cmd in
      commit_applied (record sm { catalog = r.0 }) cmd meta (from_catalog r.1)

  unfoldable pub apply : PdStateMachine → PdCommand → PdStateMachine × Applied PdResponse
  apply sm cmd = apply_inner sm cmd none

  unfoldable pub apply_with_meta :
      PdStateMachine → PdCommand → Bytes → PdStateMachine × Applied PdResponse
  apply_with_meta sm cmd meta = apply_inner sm cmd (some meta)

unfoldable pub apply_meta_only : PdStateMachine → Bytes → PdStateMachine × Applied (Unit {0})
apply_meta_only sm meta =
    let r = commit sm.store (put_meta (some meta) WriteBatch.new) in
    (record sm { store = r.0 }, r.1)

unfoldable pub read_raft_meta : PdStateMachine → Applied (Option Bytes)
read_raft_meta sm = from_backend (Memory.get sm.store pd_raft_meta_key)
