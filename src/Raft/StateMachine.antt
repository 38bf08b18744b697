-- ===== src/Raft/StateMachine.antt =====
-- crates/aresadb-raft/src/state_machine.rs: committed entries applied to a backend, here the
-- in-memory engine, and snapshots of it. openraft's log ids and memberships, and what bincode makes
-- of a row and of a snapshot, are parameters.
pub mod Spec
pub mod Views
pub mod Apply
pub mod Reopen
pub mod Install
pub mod Snapshots
use Prim.Native.String.{String}
use aresadb.Prelude.{ℕ, ◌+◌, ◌%◌, ◌^◌, Option, none, some, List, [], ◌∷◌, length, if◌then◌else◌}
use aresadb.Ord.Bytes.{Bytes}
use aresadb.BigEndian.{u64_mod}
use aresadb.Core.Error.{Outcome}
use aresadb.Core.KeyRange
use aresadb.Core.WriteBatch
use aresadb.Core.WriteBatch.{WriteBatch}
use aresadb.Core.WriteBatch.Op.{WriteOp}
use aresadb.Core.Memory
use aresadb.Core.Memory.{MemoryBackend, KeyValue}
use aresadb.Raft.Command.{AresaCommand, AresaResponse, SerializableWriteBatch, from_serializable}
use aresadb.Raft.Error.{
  Stored, ok, err, panicked, ◌>>=◌, ◌>>◌, Cause, StorageError, storage_err, storage_err_ctx,
  map_err, coded, ErrorSubject, ErrorVerb,
}

-- The last applied id and membership, in memory and as the row on disk.
pub record Meta (LogId StoredMembership : Type 0) : Type 0 where
  pub last_applied : Option LogId
  pub last_membership : StoredMembership

pub record SnapshotPayload (LogId StoredMembership : Type 0) : Type 0 where
  pub last_applied : Option LogId
  pub last_membership : StoredMembership
  pub pairs : List (Bytes × Bytes)

pub record SnapshotMeta (LogId StoredMembership : Type 0) : Type 0 where
  pub last_log_id : Option LogId
  pub last_membership : StoredMembership
  pub snapshot_id : String

pub record StoredSnapshot (LogId StoredMembership : Type 0) : Type 0 where
  pub meta : SnapshotMeta LogId StoredMembership
  pub bytes : Bytes

pub record StateMachineStore (LogId StoredMembership : Type 0) : Type 0 where
  pub store : MemoryBackend
  pub inner : Meta LogId StoredMembership
  pub current_snapshot : Option (StoredSnapshot LogId StoredMembership)
  pub snapshot_idx : ℕ

pub data EntryPayload (Membership : Type 0) : Type 0 where
  blank : EntryPayload Membership
  normal : AresaCommand → EntryPayload Membership
  membership : Membership → EntryPayload Membership

pub record Entry (LogId Membership : Type 0) : Type 0 where
  pub log_id : LogId
  pub payload : EntryPayload Membership

-- openraft's stored memberships, the text of a snapshot id, and bincode, where none is an error.
pub record SmTypes (LogId StoredMembership Membership : Type 0) : Type 0 where
  pub default_membership : StoredMembership
  pub new_membership : Option LogId → Membership → StoredMembership
  pub snapshot_id : Option LogId → ℕ → String
  pub serialize_meta : Meta LogId StoredMembership → Option Bytes
  pub deserialize_meta : Bytes → Option (Meta LogId StoredMembership)
  pub serialize_payload : SnapshotPayload LogId StoredMembership → Option Bytes
  pub deserialize_payload : Bytes → Option (SnapshotPayload LogId StoredMembership)

abbrev pub sm_meta_key : Bytes
sm_meta_key = 0xff ∷ b'/' ∷ b's' ∷ b'm' ∷ b'/' ∷ b'm' ∷ b'e' ∷ b't' ∷ b'a' ∷ []

-- Where the reserved keys begin.
abbrev pub reserved : Bytes
reserved = 0xff ∷ []

unfoldable pub push_all : WriteBatch → List WriteOp → WriteBatch
push_all batch [] = batch
push_all batch (op ∷ ops) = push_all (WriteBatch.push batch op) ops

module _ {LogId StoredMembership Membership : Type 0}
    (t : SmTypes LogId StoredMembership Membership) where
  abbrev pub Update : Type 0 → Type 0
  Update A = StateMachineStore LogId StoredMembership × Stored LogId A

  unfoldable pub new_sync : MemoryBackend → StateMachineStore LogId StoredMembership
  new_sync store = record {
    store = store;
    inner = record { last_applied = none; last_membership = t.default_membership };
    current_snapshot = none;
    snapshot_idx = 0;
  }

  abbrev pub meta_err : ErrorVerb → Cause → StorageError LogId
  meta_err verb = storage_err_ctx ErrorSubject.state_machine verb

  abbrev pub load_meta :
      StateMachineStore LogId StoredMembership
      → Stored LogId (Meta LogId StoredMembership)
      → Update (Unit {0})
  load_meta sm (ok meta) = (record sm { inner = meta }, ok tt)
  load_meta sm (err e) = (sm, err e)
  load_meta sm panicked = (sm, panicked)

  -- The persisted row replaces the metadata in memory, if there is a row.
  abbrev pub load_row :
      StateMachineStore LogId StoredMembership → Stored LogId (Option Bytes) → Update (Unit {0})
  load_row sm (ok none) = (sm, ok tt)
  load_row sm (ok (some raw)) =
      load_meta sm (coded (meta_err ErrorVerb.read) (t.deserialize_meta raw))
  load_row sm (err e) = (sm, err e)
  load_row sm panicked = (sm, panicked)

  unfoldable pub load_persisted : StateMachineStore LogId StoredMembership → Update (Unit {0})
  load_persisted sm = load_row sm (map_err storage_err (Memory.get sm.store sm_meta_key))

  unfoldable pub open_store :
      MemoryBackend → Stored LogId (StateMachineStore LogId StoredMembership)
  open_store store = let r = load_persisted (new_sync store) in do r.1; ok r.0

  unfoldable pub applied_state :
      StateMachineStore LogId StoredMembership → Option LogId × StoredMembership
  applied_state sm = (sm.inner.last_applied, sm.inner.last_membership)

  -- What an entry makes of the metadata, its operations and its response.
  abbrev pub entry_meta :
      Meta LogId StoredMembership → Entry LogId Membership → Meta LogId StoredMembership
  entry_meta inner entry = elim entry.payload [
    | blank ↦ record inner { last_applied = some entry.log_id }
    | normal command ↦ record inner { last_applied = some entry.log_id }
    | membership mem ↦ record {
      last_applied = some entry.log_id;
      last_membership = t.new_membership (some entry.log_id) mem;
    }
  ]

  abbrev pub command_ops : AresaCommand → List WriteOp
  command_ops AresaCommand.noop = []
  command_ops (AresaCommand.write_batch sb) = (from_serializable sb).ops

  abbrev pub payload_ops : EntryPayload Membership → List WriteOp
  payload_ops blank = []
  payload_ops (normal command) = command_ops command
  payload_ops (membership mem) = []

  abbrev pub command_response : AresaCommand → AresaResponse
  command_response AresaCommand.noop = record { ops_applied = 0 }
  command_response (AresaCommand.write_batch sb) = record { ops_applied = length sb.ops % 2 ^ 32 }

  abbrev pub payload_response : EntryPayload Membership → AresaResponse
  payload_response blank = record { ops_applied = 0 }
  payload_response (normal command) = command_response command
  payload_response (membership mem) = record { ops_applied = 0 }

  -- The write of an entry: its operations and the row of the metadata, in one batch. The metadata in
  -- memory has changed by then.
  abbrev pub write_entry :
      StateMachineStore LogId StoredMembership
      → List WriteOp
      → Stored LogId Bytes
      → Update (Unit {0})
  write_entry sm ops (ok encoded) =
      let r =
        Memory.write_batch sm.store
          (WriteBatch.put (push_all WriteBatch.new ops) sm_meta_key encoded) in
      (record sm { store = r.0 }, map_err (meta_err ErrorVerb.write) r.1)
  write_entry sm ops (err e) = (sm, err e)
  write_entry sm ops panicked = (sm, panicked)

  unfoldable pub apply_entry :
      StateMachineStore LogId StoredMembership → Entry LogId Membership → Update (Unit {0})
  apply_entry sm entry =
      let inner = entry_meta sm.inner entry in
      write_entry (record sm { inner = inner }) (payload_ops entry.payload)
        (coded (meta_err ErrorVerb.write) (t.serialize_meta inner))

  -- The loop of `apply`: the first entry that fails ends it.
  abbrev pub apply_rest :
      (StateMachineStore LogId StoredMembership → Update (List AresaResponse))
      → AresaResponse
      → Update (Unit {0})
      → Update (List AresaResponse)
  apply_rest rest response (sm, ok u) =
      let r = rest sm in (r.0, (do responses ← r.1; ok (response ∷ responses)))
  apply_rest rest response (sm, err e) = (sm, err e)
  apply_rest rest response (sm, panicked) = (sm, panicked)

  unfoldable pub apply_entries :
      List (Entry LogId Membership)
      → StateMachineStore LogId StoredMembership
      → Update (List AresaResponse)
  unfolding apply_entry
  apply_entries [] sm = (sm, ok [])
  apply_entries (entry ∷ entries) sm =
      apply_rest (apply_entries entries) (payload_response entry.payload) (apply_entry sm entry)

  unfoldable pub apply :
      StateMachineStore LogId StoredMembership
      → List (Entry LogId Membership)
      → Update (List AresaResponse)
  unfolding apply_entries
  apply sm entries =
      let r = apply_entries entries sm in
      (
        r.0,
        (do
          responses ← r.1
          map_err (meta_err ErrorVerb.write) (Memory.flush r.0.store)
          ok responses),
      )
