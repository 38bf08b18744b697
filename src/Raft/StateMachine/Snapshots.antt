-- ===== src/Raft/StateMachine/Snapshots.antt =====
-- A snapshot that one node builds and another installs.
use aresadb.Prelude.{
  ◌+◌, ◌%◌, ◌≡◌, refl, ap, ◌∙◌, true, false, none, some, List, [], ◌∷◌, ◌++◌, if◌then◌else◌, All,
  arith,
}
use aresadb.Ord.{eq?, lt?, le?}
use aresadb.Ord.Bytes.{Bytes, bytes_ord}
use aresadb.Map
use aresadb.Map.{IsSorted}
use aresadb.BigEndian.{u64_mod}
use aresadb.Core.Error.{Outcome}
use aresadb.Core.KeyRange
use aresadb.Core.KeyRange.{contains}
use aresadb.Core.WriteBatch
use aresadb.Core.WriteBatch.{WriteBatch}
use aresadb.Core.WriteBatch.Op.{WriteOp, put, delete_range}
use aresadb.Core.Memory
use aresadb.Core.Memory.{MemoryBackend, KeyValue}
use aresadb.Core.Memory.Batch.{View, view_op, view_ops, InOrder}
use aresadb.Core.Memory.Scan.{scan-exact}
use aresadb.Raft.Error.{ok}
use aresadb.Raft.StateMachine.{
  Meta, SnapshotPayload, StoredSnapshot, SmTypes, StateMachineStore, sm_meta_key, reserved,
}
use aresadb.Raft.StateMachine.Install.{
  build_snapshot, payload_of, keep_snapshot, snapshot_of, install_snapshot, install_encoded,
  install_batch, get_current_snapshot, payload_meta,
}
use aresadb.Raft.StateMachine.Views.{
  ops-put_pairs, puts, puts-InOrder, view_ops-puts, pairs_of-entries,
}
use aresadb.Raft.StateMachine.Spec.{HasCodec, Holds}
use aresadb.Raft.StateMachine.Apply.{batch-Holds}

-- Every key is at or above the empty one.
le?-empty : (j : Bytes) → le? [] j ≡ true
le?-empty [] = refl
le?-empty (x ∷ j) = refl

-- The keys below the reserved ones.
contains-to_reserved : (j : Bytes) → contains (KeyRange.to reserved) j ≡ lt? j reserved
unfolding contains
contains-to_reserved j = rw (le?-empty j) refl

abbrev pub install_ops : List (Bytes × Bytes) → List WriteOp
install_ops pairs = delete_range [] reserved ∷ puts pairs

install_ops-InOrder : (pairs : List (Bytes × Bytes)) → All InOrder (install_ops pairs)
install_ops-InOrder pairs = (refl, puts-InOrder pairs)

module _ {LogId StoredMembership Membership : Type 0}
    (t : SmTypes LogId StoredMembership Membership) (codec : HasCodec t) where
  -- The keys below the reserved ones as the source has them, the others as the target had them.
  abbrev pub replaced : View → View → View
  replaced f g j = if lt? j reserved then f j else g j

  ops-install_batch :
      (p : SnapshotPayload LogId StoredMembership) (x : Bytes)
      → (install_batch t p x).ops ≡ install_ops p.pairs ++ put sm_meta_key x ∷ []
  unfolding WriteBatch.put WriteBatch.push WriteBatch.delete_range
  ops-install_batch p x =
      ap (λ ops. ops ++ put sm_meta_key x ∷ [])
        (ops-put_pairs (WriteBatch.delete_range WriteBatch.new [] reserved) p.pairs)

  scanned_lem :
      (sm : StateMachineStore LogId StoredMembership) (kvs : List KeyValue)
      → Memory.scan sm.store (KeyRange.to reserved) ≡ Outcome.ok kvs
      → build_snapshot t sm ≡ keep_snapshot t sm (ok (codec.payload_bytes (payload_of t sm kvs)).0)
  unfolding build_snapshot
  scanned_lem sm kvs e = rw (e, (codec.payload_bytes (payload_of t sm kvs)).1) refl

  abbrev kept :
      StateMachineStore LogId StoredMembership → Bytes → StoredSnapshot LogId StoredMembership
  kept sm x = snapshot_of t sm x ((sm.snapshot_idx + 1) % u64_mod)

  -- What the snapshot of a store has: its pairs and its metadata.
  build_snapshot_lem :
      (sm : StateMachineStore LogId StoredMembership) (f : View) (m : Meta LogId StoredMembership)
      → Holds t sm f m
      → (p : SnapshotPayload LogId StoredMembership) × (snap : StoredSnapshot LogId
          StoredMembership)
        × ((build_snapshot t sm).1 ≡ ok snap)
        × (get_current_snapshot t (build_snapshot t sm).0 ≡ some snap)
        × (snap.bytes ≡ (codec.payload_bytes p).0)
        × (payload_meta t p ≡ m)
        × IsSorted p.pairs
        × ((k : Bytes)
            → Map.get k p.pairs ≡ (if lt? k reserved then Map.get k sm.store.contents else none))
  unfolding contains
  build_snapshot_lem sm f m h =
      let (kvs, e, s, g) = scan-exact sm.store (KeyRange.to reserved) h.is_open h.is_sorted in
      let p = payload_of t sm kvs in
      let x = (codec.payload_bytes p).0 in
      let built = scanned_lem sm kvs e in
      (
        p,
        kept sm x,
        rw built refl,
        unfold get_current_snapshot in rw built refl,
        refl,
        h.inner,
        rw (pairs_of-entries kvs) s,
        λ k. rw (pairs_of-entries kvs, ← contains-to_reserved k) (g k),
      )

  install_snapshot_lem :
      (sm : StateMachineStore LogId StoredMembership) (snap : StoredSnapshot LogId StoredMembership)
      (p : SnapshotPayload LogId StoredMembership)
      → snap.bytes ≡ (codec.payload_bytes p).0
      → install_snapshot t sm snap.meta snap.bytes
        ≡ install_encoded t sm p snap (ok (codec.meta_bytes (payload_meta t p)).0)
  unfolding install_snapshot
  install_snapshot_lem sm snap p e =
      rw (e, (codec.payload_bytes p).2, (codec.meta_bytes (payload_meta t p)).1) refl

  -- The row of the snapshot's metadata goes over the target's.
  install_encoded-Holds :
      (sm : StateMachineStore LogId StoredMembership) (snap : StoredSnapshot LogId StoredMembership)
      (p : SnapshotPayload LogId StoredMembership) (g : View) (n : Meta LogId StoredMembership)
      → Holds t sm g n
      → let u = install_encoded t sm p snap (ok (codec.meta_bytes (payload_meta t p)).0) in
        (u.1 ≡ ok tt)
        × Holds t u.0 (view_ops (install_ops p.pairs) g) (payload_meta t p)
        × (get_current_snapshot t u.0 ≡ some snap)
  unfolding Memory.flush Memory.ensure_open get_current_snapshot
  install_encoded-Holds sm snap p g n h =
      let m = payload_meta t p in
      let batch = install_batch t p (codec.meta_bytes m).0 in
      let b = Memory.write_batch sm.store batch in
      let (r, k) =
        batch-Holds t codec sm (record sm { store = b.0; inner = m; current_snapshot = some snap })
          (install_ops p.pairs) batch g n m h (install_ops-InOrder p.pairs)
          (ops-install_batch p (codec.meta_bytes m).0) refl refl in
      rw (r, k.is_open) (refl, k, refl)

  Holds-view :
      (sm : StateMachineStore LogId StoredMembership) (f g : View) (m : Meta LogId StoredMembership)
      → Holds t sm f m
      → ((j : Bytes) → eq? sm_meta_key j ≡ false → f j ≡ g j)
      → Holds t sm g m
  Holds-view sm f g m h e = record {
    is_open = h.is_open;
    is_sorted = h.is_sorted;
    inner = h.inner;
    row = h.row;
    rows = λ j n. h.rows j n ∙ e j n;
  }

  replaced_lem :
      (sm : StateMachineStore LogId StoredMembership) (f g : View) (m : Meta LogId StoredMembership)
      (j : Bytes) (pairs : List (Bytes × Bytes))
      → Holds t sm f m
      → IsSorted pairs
      → Map.get j pairs ≡ (if lt? j reserved then Map.get j sm.store.contents else none)
      → eq? sm_meta_key j ≡ false
      → view_ops (install_ops pairs) g j ≡ replaced f g j
  replaced_lem sm f g m j pairs h s e n = ground (
    arith,
    view_ops-puts pairs (view_op (delete_range [] reserved) g) j s,
    le?-empty j,
    h.rows j n,
    e,
  )

  -- A snapshot that an open store builds installs on another open store: it succeeds, and then the
  -- keys below the reserved ones are those of the source, the target's others but the metadata's are
  -- as they were, the metadata, in memory and in its row, are the source's, and the snapshot is the
  -- current one of both. bincode reads back what it wrote.
  pub install-build_snapshot :
      (source target : StateMachineStore LogId StoredMembership) (f g : View)
      (m n : Meta LogId StoredMembership)
      → Holds t source f m
      → Holds t target g n
      → (snap : StoredSnapshot LogId StoredMembership) × ((build_snapshot t source).1 ≡ ok snap)
        × (get_current_snapshot t (build_snapshot t source).0 ≡ some snap)
        × ((install_snapshot t target snap.meta snap.bytes).1 ≡ ok tt)
        × Holds t (install_snapshot t target snap.meta snap.bytes).0 (replaced f g) m
        × (get_current_snapshot t (install_snapshot t target snap.meta snap.bytes).0 ≡ some snap)
  install-build_snapshot source target f g m n h k =
      let (p, snap, built, current, x, meta, s, rows) = build_snapshot_lem source f m h in
      let (r, holds, c) = install_encoded-Holds target snap p g n k in
      (
        snap,
        built,
        current,
        rw (install_snapshot_lem target snap p x) r,
        rw (install_snapshot_lem target snap p x, ← meta)
            (Holds-view
              (install_encoded t target p snap (ok (codec.meta_bytes (payload_meta t p)).0)).0
              (view_ops (install_ops p.pairs) g) (replaced f g) (payload_meta t p) holds
              (λ j e. replaced_lem source f g m j p.pairs h s (rows j) e)),
        rw (install_snapshot_lem target snap p x) c,
      )
