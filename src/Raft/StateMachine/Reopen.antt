-- ===== src/Raft/StateMachine/Reopen.antt =====
-- Opening a store again on the backend of another (`open` of crates/aresadb-raft/src/state_machine.rs).
use aresadb.Prelude.{◌≡◌, refl, ap, false, Option, none, some, List, arith}
use aresadb.Ord.{eq?}
use aresadb.Ord.Bytes.{Bytes, bytes_ord}
use aresadb.Map
use aresadb.Map.{IsSorted}
use aresadb.Core.Memory.{MemoryBackend}
use aresadb.Core.Memory.Batch.{View, view_ops}
use aresadb.Raft.Error.{ok}
use aresadb.Raft.StateMachine.{
  Meta, SmTypes, StateMachineStore, Entry, applied_state, sm_meta_key, apply, open_store,
  load_persisted, load_row, new_sync,
}
use aresadb.Raft.StateMachine.Spec.{
  HasCodec, all_ops, last_id, last_membership_of, after_entries, AllInOrder, meta_row, Holds,
}
use aresadb.Raft.StateMachine.Apply.{get_open, apply-Holds}

module _ {LogId StoredMembership Membership : Type 0}
    (t : SmTypes LogId StoredMembership Membership) (codec : HasCodec t) where
  abbrev opened :
      MemoryBackend → Meta LogId StoredMembership → StateMachineStore LogId StoredMembership
  opened b m = record { store = b; inner = m; current_snapshot = none; snapshot_idx = 0 }

  load_row_lem :
      (b : MemoryBackend) (m : Meta LogId StoredMembership) (row : Option Bytes)
      → meta_row t row ≡ some m
      → load_row t (new_sync t b) (ok row) ≡ (opened b m, ok tt)
  unfolding new_sync
  load_row_lem b m none h = ground arith
  load_row_lem b m (some raw) h = rw h refl

  open_store_lem :
      (b : MemoryBackend) (m : Meta LogId StoredMembership)
      → b.is_closed ≡ false
      → meta_row t (Map.get sm_meta_key b.contents) ≡ some m
      → open_store t b ≡ ok (opened b m)
  unfolding open_store load_persisted new_sync
  open_store_lem b m o h =
      rw (get_open b sm_meta_key o, load_row_lem b m (Map.get sm_meta_key b.contents) h) refl

  open_store-Holds :
      (sm : StateMachineStore LogId StoredMembership) (f : View) (m : Meta LogId StoredMembership)
      → Holds t sm f m
      → (sm' : StateMachineStore LogId StoredMembership) × (open_store t sm.store ≡ ok sm')
        × Holds t sm' f m
        × (sm'.current_snapshot ≡ none)
  open_store-Holds sm f m h = (
    opened sm.store m,
    open_store_lem sm.store m h.is_open h.row,
    record {
      is_open = h.is_open;
      is_sorted = h.is_sorted;
      inner = refl;
      row = h.row;
      rows = h.rows;
    },
    refl,
  )

  -- A store that is opened again, as after a crash, on the backend to which entries were applied finds
  -- the id of the last entry and the last membership, no snapshot, and the user's keys as the
  -- operations of the entries left them. bincode reads back what it wrote, and no range delete has its
  -- bounds out of order.
  pub open_store-apply :
      (sm : StateMachineStore LogId StoredMembership) (entries : List (Entry LogId Membership))
      (f : View) (m : Meta LogId StoredMembership)
      → Holds t sm f m
      → AllInOrder t entries
      → (sm' : StateMachineStore LogId StoredMembership) × (open_store t
            (apply t sm entries).0.store
          ≡ ok sm')
        × (applied_state t sm'
            ≡ (last_id t m.last_applied entries, last_membership_of t m.last_membership entries))
        × (sm'.current_snapshot ≡ none)
        × ((j : Bytes)
            → eq? sm_meta_key j ≡ false
            → Map.get j sm'.store.contents ≡ view_ops (all_ops t entries) f j)
  unfolding applied_state
  open_store-apply sm entries f m h o =
      let (sm', opens, k, no_snapshot) =
        open_store-Holds (apply t sm entries).0 (view_ops (all_ops t entries) f)
          (after_entries t entries m) (apply-Holds t codec sm entries f m h o).1 in
      (sm', opens, ap (λ i. (i.last_applied, i.last_membership)) k.inner, no_snapshot, k.rows)
