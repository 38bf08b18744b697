-- ===== src/Raft/StateMachine/Install.antt =====
-- Building and installing snapshots, from crates/aresadb-raft/src/state_machine.rs.
use aresadb.Prelude.{ℕ, ◌+◌, ◌%◌, Option, some, List, [], ◌∷◌}
use aresadb.Ord.Bytes.{Bytes}
use aresadb.BigEndian.{u64_mod}
use aresadb.Core.KeyRange
use aresadb.Core.WriteBatch
use aresadb.Core.WriteBatch.{WriteBatch}
use aresadb.Core.Memory
use aresadb.Core.Memory.{MemoryBackend, KeyValue}
use aresadb.Raft.Error.{
  Stored, ok, err, panicked, ◌>>◌, Cause, StorageError, storage_err, storage_err_ctx, map_err,
  coded, ErrorSubject, ErrorVerb,
}
use aresadb.Raft.StateMachine.{
  Meta, SnapshotPayload, SnapshotMeta, StoredSnapshot, StateMachineStore, SmTypes, Update, meta_err,
  sm_meta_key, reserved,
}

abbrev pub pairs_of : List KeyValue → List (Bytes × Bytes)
pairs_of [] = []
pairs_of (kv ∷ kvs) = (kv.key, kv.value) ∷ pairs_of kvs

unfoldable pub put_pairs : WriteBatch → List (Bytes × Bytes) → WriteBatch
put_pairs batch [] = batch
put_pairs batch ((k, v) ∷ pairs) = put_pairs (WriteBatch.put batch k v) pairs

module _ {LogId StoredMembership Membership : Type 0}
    (t : SmTypes LogId StoredMembership Membership) where
  abbrev pub snapshot_of :
      StateMachineStore LogId StoredMembership → Bytes → ℕ → StoredSnapshot LogId StoredMembership
  snapshot_of sm bytes idx = record {
    meta = record {
      last_log_id = sm.inner.last_applied;
      last_membership = sm.inner.last_membership;
      snapshot_id = t.snapshot_id sm.inner.last_applied idx;
    };
    bytes = bytes;
  }

  abbrev pub payload_of :
      StateMachineStore LogId StoredMembership
      → List KeyValue
      → SnapshotPayload LogId StoredMembership
  payload_of sm kvs = record {
    last_applied = sm.inner.last_applied;
    last_membership = sm.inner.last_membership;
    pairs = pairs_of kvs;
  }

  -- The counter is an atomic `u64`.
  abbrev pub keep_snapshot :
      StateMachineStore LogId StoredMembership
      → Stored LogId Bytes
      → Update t (StoredSnapshot LogId StoredMembership)
  keep_snapshot sm (ok bytes) =
      let idx = (sm.snapshot_idx + 1) % u64_mod in
      let stored = snapshot_of sm bytes idx in
      (record sm { snapshot_idx = idx; current_snapshot = some stored }, ok stored)
  keep_snapshot sm (err e) = (sm, err e)
  keep_snapshot sm panicked = (sm, panicked)

  abbrev pub build_scanned :
      StateMachineStore LogId StoredMembership
      → Stored LogId (List KeyValue)
      → Update t (StoredSnapshot LogId StoredMembership)
  build_scanned sm (ok kvs) =
      keep_snapshot sm (coded (meta_err t ErrorVerb.read) (t.serialize_payload (payload_of sm kvs)))
  build_scanned sm (err e) = (sm, err e)
  build_scanned sm panicked = (sm, panicked)

  -- The keys below the reserved ones.
  unfoldable pub build_snapshot :
      StateMachineStore LogId StoredMembership → Update t (StoredSnapshot LogId StoredMembership)
  build_snapshot sm =
      build_scanned sm (map_err storage_err (Memory.scan sm.store (KeyRange.to reserved)))

  abbrev pub snapshot_err : ErrorVerb → Cause → StorageError LogId
  snapshot_err verb = storage_err_ctx ErrorSubject.snapshot verb

  abbrev pub payload_meta : SnapshotPayload LogId StoredMembership → Meta LogId StoredMembership
  payload_meta payload = record {
    last_applied = payload.last_applied;
    last_membership = payload.last_membership;
  }

  abbrev pub install_batch : SnapshotPayload LogId StoredMembership → Bytes → WriteBatch
  install_batch payload encoded =
      WriteBatch.put (put_pairs (WriteBatch.delete_range WriteBatch.new [] reserved) payload.pairs)
        sm_meta_key encoded

  abbrev pub install_written :
      StateMachineStore LogId StoredMembership
      → Meta LogId StoredMembership
      → StoredSnapshot LogId StoredMembership
      → Stored LogId (Unit {0})
      → Update t (Unit {0})
  install_written sm inner stored (ok u) =
      (record sm { inner = inner; current_snapshot = some stored }, ok tt)
  install_written sm inner stored (err e) = (sm, err e)
  install_written sm inner stored panicked = (sm, panicked)

  abbrev pub install_encoded :
      StateMachineStore LogId StoredMembership
      → SnapshotPayload LogId StoredMembership
      → StoredSnapshot LogId StoredMembership
      → Stored LogId Bytes
      → Update t (Unit {0})
  install_encoded sm payload stored (ok encoded) =
      let r = Memory.write_batch sm.store (install_batch payload encoded) in
      install_written (record sm { store = r.0 }) (payload_meta payload) stored
        (do
          map_err (snapshot_err ErrorVerb.write) r.1
          map_err (snapshot_err ErrorVerb.write) (Memory.flush r.0))
  install_encoded sm payload stored (err e) = (sm, err e)
  install_encoded sm payload stored panicked = (sm, panicked)

  abbrev pub install_decoded :
      StateMachineStore LogId StoredMembership
      → StoredSnapshot LogId StoredMembership
      → Stored LogId (SnapshotPayload LogId StoredMembership)
      → Update t (Unit {0})
  install_decoded sm stored (ok payload) =
      install_encoded sm payload stored
        (coded (snapshot_err ErrorVerb.write) (t.serialize_meta (payload_meta payload)))
  install_decoded sm stored (err e) = (sm, err e)
  install_decoded sm stored panicked = (sm, panicked)

  unfoldable pub install_snapshot :
      StateMachineStore LogId StoredMembership
      → SnapshotMeta LogId StoredMembership
      → Bytes
      → Update t (Unit {0})
  install_snapshot sm meta bytes =
      install_decoded sm (record { meta = meta; bytes = bytes })
        (coded (snapshot_err ErrorVerb.read) (t.deserialize_payload bytes))

  unfoldable pub get_current_snapshot :
      StateMachineStore LogId StoredMembership → Option (StoredSnapshot LogId StoredMembership)
  get_current_snapshot sm = sm.current_snapshot
