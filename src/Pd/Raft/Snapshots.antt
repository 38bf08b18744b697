-- ===== src/Pd/Raft/Snapshots.antt =====
-- Building and installing snapshots, from crates/aresadb-pd/src/raft/state_machine.rs.
use aresadb.Prelude.{ℕ, ◌+◌, ◌%◌, Option, some, List}
use aresadb.Ord.Bytes.{Bytes}
use aresadb.BigEndian.{u64_mod}
use aresadb.Raft.Error.{Stored, ok, err, panicked, ◌>>=◌, Cause, storage_err}
use aresadb.Pd.Types.{RangeDescriptor}
use aresadb.Pd.Error
use aresadb.Pd.Catalog.State.{iter_ranges_by_start, iter_nodes, peek_next_range_id}
use aresadb.Pd.StateMachine.Recovery.{install_catalog_snapshot}
use aresadb.Pd.Raft.{
  PersistedPdMeta, SnapshotPayload, SnapshotMeta, StoredSnapshot, PdRaftStateMachine, RaftTypes,
  Update, stored, meta_to_bytes, payload_to_bytes, payload_from_bytes,
}

module _ {LogId StoredMembership Membership : Type 0}
    (t : RaftTypes LogId StoredMembership Membership) where
  -- The catalog's part of a snapshot; an index out of step with the ranges panics.
  abbrev pub read_ranges : Error.Result (List RangeDescriptor) → Stored LogId (List RangeDescriptor)
  read_ranges (Error.ok ranges) = ok ranges
  read_ranges (Error.err e) = err (storage_err (Cause.catalog e))
  read_ranges Error.panicked = panicked

  abbrev pub payload_of :
      PdRaftStateMachine LogId StoredMembership
      → List RangeDescriptor
      → SnapshotPayload LogId StoredMembership
  payload_of sm ranges = record {
    last_applied = sm.meta.last_applied;
    last_membership = sm.meta.last_membership;
    next_range_id = peek_next_range_id sm.inner.catalog;
    ranges = ranges;
    nodes = iter_nodes sm.inner.catalog;
  }

  abbrev pub snapshot_of :
      PdRaftStateMachine LogId StoredMembership → Bytes → ℕ → StoredSnapshot LogId StoredMembership
  snapshot_of sm bytes idx = record {
    meta = record {
      last_log_id = sm.meta.last_applied;
      last_membership = sm.meta.last_membership;
      snapshot_id = t.snapshot_id sm.meta.last_applied idx;
    };
    bytes = bytes;
  }

  -- The counter is an atomic `u64`.
  abbrev pub keep_snapshot :
      PdRaftStateMachine LogId StoredMembership
      → Stored LogId Bytes
      → Update t (StoredSnapshot LogId StoredMembership)
  keep_snapshot sm (ok bytes) =
      let idx = (sm.snapshot_idx + 1) % u64_mod in
      let snap = snapshot_of sm bytes idx in
      (record sm { snapshot_idx = idx; current_snapshot = some snap }, ok snap)
  keep_snapshot sm (err e) = (sm, err e)
  keep_snapshot sm panicked = (sm, panicked)

  unfoldable pub build_snapshot :
      PdRaftStateMachine LogId StoredMembership → Update t (StoredSnapshot LogId StoredMembership)
  build_snapshot sm = keep_snapshot sm (do
    ranges ← read_ranges (iter_ranges_by_start sm.inner.catalog)
    payload_to_bytes t (payload_of sm ranges))

  abbrev pub payload_meta :
      SnapshotPayload LogId StoredMembership → PersistedPdMeta LogId StoredMembership
  payload_meta p = record { last_applied = p.last_applied; last_membership = p.last_membership }

  abbrev pub keep_installed :
      PdRaftStateMachine LogId StoredMembership
      → PersistedPdMeta LogId StoredMembership
      → StoredSnapshot LogId StoredMembership
      → Stored LogId (Unit {0})
      → Update t (Unit {0})
  keep_installed sm meta snap (ok u) =
      (record sm { meta = meta; current_snapshot = some snap }, ok tt)
  keep_installed sm meta snap (err e) = (sm, err e)
  keep_installed sm meta snap panicked = (sm, panicked)

  abbrev pub install_encoded :
      PdRaftStateMachine LogId StoredMembership
      → SnapshotPayload LogId StoredMembership
      → StoredSnapshot LogId StoredMembership
      → Stored LogId Bytes
      → Update t (Unit {0})
  install_encoded sm p snap (ok encoded) =
      let r = install_catalog_snapshot t.rows sm.inner p.ranges p.nodes p.next_range_id encoded in
      keep_installed (record sm { inner = r.0 }) (payload_meta p) snap (stored t r.1)
  install_encoded sm p snap (err e) = (sm, err e)
  install_encoded sm p snap panicked = (sm, panicked)

  abbrev pub install_decoded :
      PdRaftStateMachine LogId StoredMembership
      → StoredSnapshot LogId StoredMembership
      → Stored LogId (SnapshotPayload LogId StoredMembership)
      → Update t (Unit {0})
  install_decoded sm snap (ok p) = install_encoded sm p snap (meta_to_bytes t (payload_meta p))
  install_decoded sm snap (err e) = (sm, err e)
  install_decoded sm snap panicked = (sm, panicked)

  unfoldable pub install_snapshot :
      PdRaftStateMachine LogId StoredMembership
      → SnapshotMeta LogId StoredMembership
      → Bytes
      → Update t (Unit {0})
  install_snapshot sm meta bytes =
      install_decoded sm (record { meta = meta; bytes = bytes }) (payload_from_bytes t bytes)

  unfoldable pub get_current_snapshot :
      PdRaftStateMachine LogId StoredMembership → Option (StoredSnapshot LogId StoredMembership)
  get_current_snapshot sm = sm.current_snapshot
