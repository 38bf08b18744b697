-- ===== src/Pd/Raft.antt =====
-- crates/aresadb-pd/src/raft/state_machine.rs: committed entries applied to the placement driver's
-- state machine, and snapshots of its catalog. openraft's ids and memberships, the texts of errors
-- and of snapshot ids, and what bincode makes of the metadata and of a snapshot, are parameters.
pub mod Snapshots
pub mod Transfer
pub mod Written
pub mod LoadedNodes
pub mod Installs
pub mod Spec
pub mod Applies
mod Tests
use Prim.Native.String.{String}
use aresadb.Prelude.{ℕ, ◌+◌, ◌%◌, Option, none, some, List, [], ◌∷◌}
use aresadb.Ord.Bytes.{Bytes}
use aresadb.BigEndian.{u64_mod}
use aresadb.Raft.Error.{
  Stored, ok, err, panicked, ◌>>=◌, ◌>>◌, Cause, StorageError, storage_err, storage_err_ctx, coded,
  ErrorSubject, ErrorVerb,
}
use aresadb.Pd.Types.{RangeId, RangeDescriptor, NodeInfo}
use aresadb.Pd.Error.{CatalogError}
use aresadb.Pd.Error
use aresadb.Pd.Command.{PdCommand, PdResponse}
use aresadb.Pd.Catalog.State.{iter_ranges_by_start, iter_nodes, peek_next_range_id}
use aresadb.Pd.StateMachine
use aresadb.Pd.StateMachine.{
  Applied, PdApplyError, Bincode, PdStateMachine, read_raft_meta, apply_with_meta, apply_meta_only,
}
use aresadb.Pd.StateMachine.Recovery.{install_catalog_snapshot}

pub record PersistedPdMeta (LogId StoredMembership : Type 0) : Type 0 where
  pub last_applied : Option LogId
  pub last_membership : StoredMembership

pub record SnapshotPayload (LogId StoredMembership : Type 0) : Type 0 where
  pub last_applied : Option LogId
  pub last_membership : StoredMembership
  pub next_range_id : RangeId
  pub ranges : List RangeDescriptor
  pub nodes : List NodeInfo

pub record SnapshotMeta (LogId StoredMembership : Type 0) : Type 0 where
  pub last_log_id : Option LogId
  pub last_membership : StoredMembership
  pub snapshot_id : String

pub record StoredSnapshot (LogId StoredMembership : Type 0) : Type 0 where
  pub meta : SnapshotMeta LogId StoredMembership
  pub bytes : Bytes

pub record PdRaftStateMachine (LogId StoredMembership : Type 0) : Type 0 where
  pub inner : PdStateMachine
  pub meta : PersistedPdMeta LogId StoredMembership
  pub current_snapshot : Option (StoredSnapshot LogId StoredMembership)
  pub snapshot_idx : ℕ

pub data EntryPayload (Membership : Type 0) : Type 0 where
  blank : EntryPayload Membership
  normal : PdCommand → EntryPayload Membership
  membership : Membership → EntryPayload Membership

pub record Entry (LogId Membership : Type 0) : Type 0 where
  pub log_id : LogId
  pub payload : EntryPayload Membership

pub record RaftTypes (LogId StoredMembership Membership : Type 0) : Type 0 where
  pub rows : Bincode
  pub default_membership : StoredMembership
  pub new_membership : Option LogId → Membership → StoredMembership
  pub snapshot_id : Option LogId → ℕ → String
  pub error_text : CatalogError → String
  pub serialize_meta : PersistedPdMeta LogId StoredMembership → Option Bytes
  pub deserialize_meta : Bytes → Option (PersistedPdMeta LogId StoredMembership)
  pub serialize_payload : SnapshotPayload LogId StoredMembership → Option Bytes
  pub deserialize_payload : Bytes → Option (SnapshotPayload LogId StoredMembership)

module _ {LogId StoredMembership Membership : Type 0}
    (t : RaftTypes LogId StoredMembership Membership) where
  abbrev pub Update : Type 0 → Type 0
  Update A = PdRaftStateMachine LogId StoredMembership × Stored LogId A

  abbrev pub state_machine_err : ErrorVerb → Cause → StorageError LogId
  state_machine_err verb = storage_err_ctx ErrorSubject.state_machine verb

  abbrev pub snapshot_err : ErrorVerb → Cause → StorageError LogId
  snapshot_err verb = storage_err_ctx ErrorSubject.snapshot verb

  abbrev pub meta_to_bytes : PersistedPdMeta LogId StoredMembership → Stored LogId Bytes
  meta_to_bytes m = coded (state_machine_err ErrorVerb.write) (t.serialize_meta m)

  abbrev pub meta_from_bytes : Bytes → Stored LogId (PersistedPdMeta LogId StoredMembership)
  meta_from_bytes raw = coded (state_machine_err ErrorVerb.read) (t.deserialize_meta raw)

  abbrev pub payload_to_bytes : SnapshotPayload LogId StoredMembership → Stored LogId Bytes
  payload_to_bytes p = coded (state_machine_err ErrorVerb.write) (t.serialize_payload p)

  abbrev pub payload_from_bytes : Bytes → Stored LogId (SnapshotPayload LogId StoredMembership)
  payload_from_bytes raw = coded (snapshot_err ErrorVerb.read) (t.deserialize_payload raw)

  abbrev pub pd_apply_to_storage_err : PdApplyError → StorageError LogId
  pd_apply_to_storage_err (PdApplyError.catalog ce) = storage_err (Cause.catalog ce)
  pd_apply_to_storage_err (PdApplyError.backend be) =
      state_machine_err ErrorVerb.write (Cause.backend be)
  pd_apply_to_storage_err PdApplyError.encode = state_machine_err ErrorVerb.write Cause.bincode

  -- `map_err` on a result of the inner state machine.
  abbrev pub stored {ℓ} : {A : Type ℓ} → Applied A → Stored LogId A
  stored (Applied.ok a) = ok a
  stored (Applied.err e) = err (pd_apply_to_storage_err e)
  stored Applied.panicked = panicked

  abbrev pub default_meta : PersistedPdMeta LogId StoredMembership
  default_meta = record { last_applied = none; last_membership = t.default_membership }

  abbrev pub opened_meta : Option Bytes → Stored LogId (PersistedPdMeta LogId StoredMembership)
  opened_meta none = ok default_meta
  opened_meta (some bytes) = meta_from_bytes bytes

  unfoldable pub open_adapter :
      PdStateMachine → Stored LogId (PdRaftStateMachine LogId StoredMembership)
  open_adapter inner = do
    raw ← stored (read_raft_meta inner)
    meta ← opened_meta raw
    ok (record { inner = inner; meta = meta; current_snapshot = none; snapshot_idx = 0 })

  unfoldable pub applied_state :
      PdRaftStateMachine LogId StoredMembership → Option LogId × StoredMembership
  applied_state sm = (sm.meta.last_applied, sm.meta.last_membership)

  -- The metadata in memory follows a durable write.
  abbrev pub keep_meta :
      PdRaftStateMachine LogId StoredMembership
      → PersistedPdMeta LogId StoredMembership
      → PdResponse
      → Stored LogId (Unit {0})
      → Update PdResponse
  keep_meta sm meta resp (ok u) = (record sm { meta = meta }, ok resp)
  keep_meta sm meta resp (err e) = (sm, err e)
  keep_meta sm meta resp panicked = (sm, panicked)

  abbrev pub write_meta :
      PdRaftStateMachine LogId StoredMembership
      → PersistedPdMeta LogId StoredMembership
      → PdResponse
      → Stored LogId Bytes
      → Update PdResponse
  write_meta sm meta resp (ok encoded) =
      let r = apply_meta_only sm.inner encoded in
      keep_meta (record sm { inner = r.0 }) meta resp (stored r.1)
  write_meta sm meta resp (err e) = (sm, err e)
  write_meta sm meta resp panicked = (sm, panicked)

  -- A rejection of the catalog is a response, and its entry counts as applied.
  abbrev pub command_answer :
      PdRaftStateMachine LogId StoredMembership
      → PersistedPdMeta LogId StoredMembership
      → Applied PdResponse
      → Update PdResponse
  command_answer sm meta (Applied.ok resp) = (record sm { meta = meta }, ok resp)
  command_answer sm meta (Applied.err (PdApplyError.catalog ce)) =
      write_meta sm meta (PdResponse.error (t.error_text ce)) (meta_to_bytes meta)
  command_answer sm meta (Applied.err (PdApplyError.backend be)) =
      (sm, err (pd_apply_to_storage_err (PdApplyError.backend be)))
  command_answer sm meta (Applied.err PdApplyError.encode) =
      (sm, err (pd_apply_to_storage_err PdApplyError.encode))
  command_answer sm meta Applied.panicked = (sm, panicked)

  abbrev pub write_command :
      PdRaftStateMachine LogId StoredMembership
      → PersistedPdMeta LogId StoredMembership
      → PdCommand
      → Stored LogId Bytes
      → Update PdResponse
  write_command sm meta cmd (ok encoded) =
      let r = apply_with_meta t.rows sm.inner cmd encoded in
      command_answer (record sm { inner = r.0 }) meta r.1
  write_command sm meta cmd (err e) = (sm, err e)
  write_command sm meta cmd panicked = (sm, panicked)

  abbrev pub applied_meta :
      PersistedPdMeta LogId StoredMembership
      → LogId
      → EntryPayload Membership
      → PersistedPdMeta LogId StoredMembership
  applied_meta meta log_id blank = record meta { last_applied = some log_id }
  applied_meta meta log_id (normal cmd) = record meta { last_applied = some log_id }
  applied_meta meta log_id (membership mem) = record {
    last_applied = some log_id;
    last_membership = t.new_membership (some log_id) mem;
  }

  abbrev pub apply_payload :
      PdRaftStateMachine LogId StoredMembership
      → PersistedPdMeta LogId StoredMembership
      → EntryPayload Membership
      → Update PdResponse
  apply_payload sm meta blank = write_meta sm meta PdResponse.done (meta_to_bytes meta)
  apply_payload sm meta (normal cmd) = write_command sm meta cmd (meta_to_bytes meta)
  apply_payload sm meta (membership mem) = write_meta sm meta PdResponse.done (meta_to_bytes meta)

  unfoldable pub apply_entry :
      PdRaftStateMachine LogId StoredMembership → Entry LogId Membership → Update PdResponse
  apply_entry sm entry =
      apply_payload sm (applied_meta sm.meta entry.log_id entry.payload) entry.payload

  -- The loop of `apply`: the first entry that fails ends it.
  abbrev pub apply_rest :
      (PdRaftStateMachine LogId StoredMembership → Update (List PdResponse))
      → Update PdResponse
      → Update (List PdResponse)
  apply_rest rest (sm, ok resp) =
      let r = rest sm in (r.0, (do responses ← r.1; ok (resp ∷ responses)))
  apply_rest rest (sm, err e) = (sm, err e)
  apply_rest rest (sm, panicked) = (sm, panicked)

  unfoldable pub apply :
      PdRaftStateMachine LogId StoredMembership
      → List (Entry LogId Membership)
      → Update (List PdResponse)
  unfolding apply_entry
  apply sm [] = (sm, ok [])
  apply sm (entry ∷ entries) = apply_rest (λ sm. apply sm entries) (apply_entry sm entry)
