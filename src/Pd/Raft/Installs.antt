-- ===== src/Pd/Raft/Installs.antt =====
-- Building a snapshot on one adapter and installing it on another.
use aresadb.Prelude.{◌+◌, ◌%◌, ◌≡◌, refl, false, some, List, [], ◌∷◌, arith}
use aresadb.Ord.Nat.{nat_ord}
use aresadb.Ord.Bytes.{Bytes, bytes_ord}
use aresadb.BigEndian.{u64_mod}
use aresadb.Raft.Error.{ok}
use aresadb.Pd.Types.{NodeId, RangeDescriptor}
use aresadb.Pd.Error
use aresadb.Map
use aresadb.Pd.StateMachine.{pd_raft_meta_key}
use aresadb.Pd.StateMachine.Mirror.{Mirrors}
use aresadb.Pd.StateMachine.Nodes.{MirrorsNodes, NodesOwn}
use aresadb.Pd.Raft.LoadedNodes.{iter_nodes-loaded}
use aresadb.Map.{IsSorted}
use aresadb.Pd.Catalog.Load.Laws.{From}
use aresadb.Pd.Catalog.State.{
  Catalog, get_node, iter_ranges_by_start, iter_nodes, peek_next_range_id,
}
use aresadb.Pd.Catalog.Valid.{IsValid}
use aresadb.Pd.Catalog.Load.{load}
use aresadb.Pd.StateMachine.Restored.{SameRanges, loaded-SameRanges}
use aresadb.Pd.Raft.{
  PersistedPdMeta, SnapshotPayload, StoredSnapshot, PdRaftStateMachine, RaftTypes,
}
use aresadb.Pd.Raft.Snapshots.{
  payload_of, payload_meta, snapshot_of, keep_snapshot, build_snapshot, install_snapshot,
  install_encoded, get_current_snapshot,
}
use aresadb.Pd.Raft.Spec.{HasCodec, meta_row}
use aresadb.Pd.Raft.Written.{RangesFit, NodesFit, install_catalog_snapshot-written}
use aresadb.Pd.Raft.Transfer.{iter_ranges_by_start-From}

module _ {LogId StoredMembership Membership : Type 0}
    (t : RaftTypes LogId StoredMembership Membership) where
  -- bincode reads back the snapshot that it wrote of the adapter.
  abbrev pub SnapshotReadsBack : PdRaftStateMachine LogId StoredMembership → Type 0
  SnapshotReadsBack sm =
      (ds : List RangeDescriptor)
      → iter_ranges_by_start sm.inner.catalog ≡ Error.ok ds
      → (x : Bytes) × (t.serialize_payload (payload_of t sm ds) ≡ some x)
        × (t.deserialize_payload x ≡ some (payload_of t sm ds))

  build_snapshot_lem :
      (sm : PdRaftStateMachine LogId StoredMembership) (ds : List RangeDescriptor) (x : Bytes)
      → iter_ranges_by_start sm.inner.catalog ≡ Error.ok ds
      → t.serialize_payload (payload_of t sm ds) ≡ some x
      → build_snapshot t sm ≡ keep_snapshot t sm (ok x)
  unfolding build_snapshot
  build_snapshot_lem sm ds x e s = rw (e, s) refl

  abbrev kept :
      PdRaftStateMachine LogId StoredMembership → Bytes → StoredSnapshot LogId StoredMembership
  kept sm x = snapshot_of t sm x ((sm.snapshot_idx + 1) % u64_mod)

  module _ (codec : HasCodec t) where
    install_snapshot_lem :
        (sm : PdRaftStateMachine LogId StoredMembership)
        (snap : StoredSnapshot LogId StoredMembership) (p : SnapshotPayload LogId StoredMembership)
        → t.deserialize_payload snap.bytes ≡ some p
        → install_snapshot t sm snap.meta snap.bytes
          ≡ install_encoded t sm p snap (ok (codec.meta_bytes (payload_meta t p)).0)
    unfolding install_snapshot
    install_snapshot_lem sm snap p e = rw (e, (codec.meta_bytes (payload_meta t p)).1) refl

    -- The rows on disk are those of the catalog in memory and of the metadata `m`.
    abbrev pub IsOnDisk :
        PdRaftStateMachine LogId StoredMembership → PersistedPdMeta LogId StoredMembership → Type 0
    IsOnDisk sm m =
        (sm.inner.store.is_closed ≡ false)
        × Mirrors t.rows sm.inner.store.contents sm.inner.catalog.ranges
        × MirrorsNodes t.rows sm.inner.store.contents sm.inner.catalog.nodes
        × (meta_row t (Map.get pd_raft_meta_key sm.inner.store.contents) ≡ some m)

    install_encoded_lem :
        (sm : PdRaftStateMachine LogId StoredMembership)
        (snap : StoredSnapshot LogId StoredMembership) (p : SnapshotPayload LogId StoredMembership)
        → sm.inner.store.is_closed ≡ false
        → RangesFit p.ranges
        → NodesFit p.nodes
        → let u = install_encoded t sm p snap (ok (codec.meta_bytes (payload_meta t p)).0) in
          (u.1 ≡ ok tt)
          × (u.0.inner.catalog ≡ load p.ranges p.nodes p.next_range_id)
          × (u.0.meta ≡ payload_meta t p)
          × (get_current_snapshot t u.0 ≡ some snap)
          × IsOnDisk u.0 (payload_meta t p)
    unfolding get_current_snapshot
    install_encoded_lem sm snap p o fit_ranges fit_nodes =
        let (x, s, d) = codec.meta_bytes (payload_meta t p) in
        let (r, c, opened, ranges, nodes, meta) =
          install_catalog_snapshot-written t.rows codec.rows sm.inner p.ranges p.nodes
            p.next_range_id x o fit_ranges fit_nodes in
        rw r (refl, c, refl, refl, (opened, rw c ranges, rw c nodes, rw meta d))

    From-RangesFit :
        (c : Catalog) (ds : List RangeDescriptor) → IsValid c → From c ds → RangesFit ds
    From-RangesFit c [] v from = tt
    From-RangesFit c (d ∷ ds) v from =
        (omega (arith, v.below d.range_id d from.0.0, v.fits), From-RangesFit c ds v from.1)

    -- A snapshot that an adapter with a well-formed catalog builds installs on another one whose
    -- backend is open: the target then has the source's ranges, owner of every key, nodes and metadata, and
    -- the snapshot is the current one of both. On the target's disk, the rows of ranges and of nodes
    -- are those of its new catalog, without a row of an id that the catalog does not have, and the row
    -- of the metadata is the source's. Every row serialises, the source's nodes stand sorted under their own ids, `u64`s,
    -- and bincode reads back the metadata and the snapshot that it wrote.
    pub install_snapshot-transfers :
        (source target : PdRaftStateMachine LogId StoredMembership)
        → IsValid source.inner.catalog
        → NodesOwn source.inner.catalog.nodes
        → IsSorted source.inner.catalog.nodes
        → SnapshotReadsBack source
        → target.inner.store.is_closed ≡ false
        → (snap : StoredSnapshot LogId StoredMembership) × ((build_snapshot t source).1 ≡ ok snap)
          × (get_current_snapshot t (build_snapshot t source).0 ≡ some snap)
          × ((install_snapshot t target snap.meta snap.bytes).1 ≡ ok tt)
          × SameRanges source.inner.catalog
              (install_snapshot t target snap.meta snap.bytes).0.inner.catalog
          × ((i : NodeId)
              → get_node (install_snapshot t target snap.meta snap.bytes).0.inner.catalog i
                ≡ get_node source.inner.catalog i)
          × ((install_snapshot t target snap.meta snap.bytes).0.meta ≡ source.meta)
          × (get_current_snapshot t (install_snapshot t target snap.meta snap.bytes).0 ≡ some snap)
          × IsOnDisk (install_snapshot t target snap.meta snap.bytes).0 source.meta
    install_snapshot-transfers source target v own sorted reads o =
        let c = source.inner.catalog in
        let (ds, e, from, all) = iter_ranges_by_start-From c v in
        let (x, s, d) = reads ds e in
        let (fit_nodes, same_nodes) = iter_nodes-loaded c ds (peek_next_range_id c) own sorted in
        let p = payload_of t source ds in
        let snap = kept source x in
        let built = build_snapshot_lem source ds x e s in
        let (r, loaded, meta, current, on_disk) =
          install_encoded_lem target snap p o (From-RangesFit c ds v from) fit_nodes in
        let installed = install_snapshot_lem target snap p d in
        (
          snap,
          rw built refl,
          unfold get_current_snapshot in rw built refl,
          rw installed r,
          rw (installed, loaded)
              (loaded-SameRanges c ds (iter_nodes c) (peek_next_range_id c) v from all),
          λ i. rw (installed, loaded) (same_nodes i),
          rw installed meta,
          rw installed current,
          rw installed on_disk,
        )
