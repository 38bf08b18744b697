-- ===== src/Raft/StateMachine/Apply.antt =====
-- Applying committed entries (crates/aresadb-raft/src/state_machine.rs).
use mathlib.Core.List.{append_assoc, append-nil}
use aresadb.Prelude.{
  suc, ◌%◌, ◌^◌, length, sym, subst, ◌∙◌, ◌≡◌, refl, ap, false, some, List, [], ◌∷◌, ◌++◌, All,
  All-append,
}
use aresadb.Ord.{eq?}
use aresadb.Ord.Bytes.{Bytes, bytes_ord}
use aresadb.Map
use aresadb.Map.{IsSorted}
use aresadb.Core.Error.{Outcome}
use aresadb.Core.WriteBatch
use aresadb.Core.WriteBatch.{WriteBatch}
use aresadb.Core.WriteBatch.Op.{WriteOp, put}
use aresadb.Core.Memory
use aresadb.Core.Memory.{MemoryBackend}
use aresadb.Core.Memory.Batch.{View, view_ops, InOrder, write_batch-view, write_ops-IsSorted}
use aresadb.Raft.Error.{ok, ◌>>=◌}
use aresadb.Raft.Command.{SerializableWriteOp, AresaCommand, AresaResponse, fill, from_serializable}
use aresadb.Raft.StateMachine.{
  Meta, SmTypes, StateMachineStore, Entry, EntryPayload, Update, entry_meta, payload_ops,
  payload_response, sm_meta_key, push_all, write_entry, apply_entry, apply_rest, apply_entries,
  apply,
}
use aresadb.Core.Memory.Views.{view_ops-local, view_ops-append}
use aresadb.Raft.StateMachine.Views.{ops-push_all}
use aresadb.Raft.StateMachine.Spec.{
  HasCodec, ops_of, ops_in, all_ops, response_to, responses, after_entries, AllInOrder, Holds,
}

pub write_batch-IsSorted :
    (b : MemoryBackend) (batch : WriteBatch)
    → b.is_closed ≡ false
    → IsSorted b.contents
    → IsSorted (Memory.write_batch b batch).0.contents
unfolding Memory.write_batch
write_batch-IsSorted b batch o s = rw o (write_ops-IsSorted batch.ops b.contents s)

pub get_open :
    (b : MemoryBackend) (k : Bytes)
    → b.is_closed ≡ false
    → Memory.get b k ≡ Outcome.ok (Map.get k b.contents)
unfolding Memory.get Memory.ensure_open
get_open b k o = simp o

-- The operations, then the row: what a lookup of the row and of another key give.
pub view_ops-row :
    (ops : List WriteOp) (x : Bytes) (f : View)
    → view_ops (ops ++ put sm_meta_key x ∷ []) f sm_meta_key ≡ some x
view_ops-row ops x f = rw (view_ops-append ops (put sm_meta_key x ∷ []) f) refl

pub view_ops-user :
    (ops : List WriteOp) (x : Bytes) (f g : View) (j : Bytes)
    → eq? sm_meta_key j ≡ false
    → f j ≡ g j
    → view_ops (ops ++ put sm_meta_key x ∷ []) f j ≡ view_ops ops g j
view_ops-user ops x f g j n h =
    rw (view_ops-append ops (put sm_meta_key x ∷ []) f, n) (view_ops-local ops f g j h)

pushed :
    {r : WriteBatch} (b : WriteBatch) (op : WriteOp) (ops : List SerializableWriteOp)
    → r ≡ record { ops = (b.ops ++ op ∷ []) ++ ops_of ops }
    → r ≡ record { ops = b.ops ++ op ∷ ops_of ops }
pushed b op ops h = h ∙ ap (λ ops. record { ops = ops }) (append_assoc b.ops (op ∷ []) (ops_of ops))

fill-ops_of :
    (b : WriteBatch) (ops : List SerializableWriteOp)
    → fill b ops ≡ record { ops = b.ops ++ ops_of ops }
unfolding fill WriteBatch.put WriteBatch.delete WriteBatch.delete_range WriteBatch.push
fill-ops_of b [] = ap (λ ops. record { ops = ops }) (sym (append-nil b.ops))
fill-ops_of b (SerializableWriteOp.put key value ∷ ops) =
    pushed b (WriteOp.put key value) ops (fill-ops_of (WriteBatch.put b key value) ops)
fill-ops_of b (SerializableWriteOp.delete key ∷ ops) =
    pushed b (WriteOp.delete key) ops (fill-ops_of (WriteBatch.delete b key) ops)
fill-ops_of b (SerializableWriteOp.delete_range start end ∷ ops) =
    pushed b (WriteOp.delete_range start end) ops
      (fill-ops_of (WriteBatch.delete_range b start end) ops)

length-ops_of : (ops : List SerializableWriteOp) → length (ops_of ops) ≡ length ops
length-ops_of [] = refl
length-ops_of (op ∷ ops) = ap suc (length-ops_of ops)

module _ {LogId StoredMembership Membership : Type 0}
    (t : SmTypes LogId StoredMembership Membership) (codec : HasCodec t) where
  -- A batch of operations and the row of `m`, on a store that holds `f`.
  pub batch-Holds :
      (sm sm' : StateMachineStore LogId StoredMembership) (ops : List WriteOp) (batch : WriteBatch)
      (f : View) (n m : Meta LogId StoredMembership)
      → Holds t sm f n
      → All InOrder ops
      → batch.ops ≡ ops ++ put sm_meta_key (codec.meta_bytes m).0 ∷ []
      → sm'.store ≡ (Memory.write_batch sm.store batch).0
      → sm'.inner ≡ m
      → ((Memory.write_batch sm.store batch).1 ≡ Outcome.ok tt) × Holds t sm' (view_ops ops f) m
  batch-Holds sm sm' ops batch f n m h o e s i =
      let x = (codec.meta_bytes m).0 in
      let in_order : All InOrder batch.ops =
        rw e (All-append InOrder ops (put sm_meta_key x ∷ []) o (tt, tt)) in
      let (r, c, v) = write_batch-view sm.store batch h.is_open in_order in
      (
        r,
        record {
          is_open = rw s c;
          is_sorted = rw s (write_batch-IsSorted sm.store batch h.is_open h.is_sorted);
          inner = i;
          row =
              rw (s, v sm_meta_key, e, view_ops-row ops x (λ k. Map.get k sm.store.contents))
                (codec.meta_bytes m).2;
          rows = λ j k.
              rw (s, v j, e)
                (view_ops-user ops x (λ k. Map.get k sm.store.contents) f j k (h.rows j k));
        },
      )

  -- What the code makes of an entry is what the entry carries.
  payload_ops-ops_in :
      (payload : EntryPayload Membership) → payload_ops t payload ≡ ops_in t payload
  unfolding from_serializable
  payload_ops-ops_in EntryPayload.blank = refl
  payload_ops-ops_in (EntryPayload.normal AresaCommand.noop) = refl
  payload_ops-ops_in (EntryPayload.normal (AresaCommand.write_batch sb)) =
      ap (λ b. b.ops) (fill-ops_of WriteBatch.new sb.ops)
  payload_ops-ops_in (EntryPayload.membership mem) = refl

  payload_response-response_to :
      (payload : EntryPayload Membership) → payload_response t payload ≡ response_to t payload
  payload_response-response_to EntryPayload.blank = refl
  payload_response-response_to (EntryPayload.normal AresaCommand.noop) = refl
  payload_response-response_to (EntryPayload.normal (AresaCommand.write_batch sb)) =
      ap (λ n. record { ops_applied = n % 2 ^ 32 }) (sym (length-ops_of sb.ops))
  payload_response-response_to (EntryPayload.membership mem) = refl

  entry_meta-after_entries :
      (m : Meta LogId StoredMembership) (log_id : LogId) (payload : EntryPayload Membership)
      → let entry : Entry LogId Membership = record { log_id = log_id; payload = payload } in
        entry_meta t m entry ≡ after_entries t (entry ∷ []) m
  entry_meta-after_entries m log_id EntryPayload.blank = refl
  entry_meta-after_entries m log_id (EntryPayload.normal command) = refl
  entry_meta-after_entries m log_id (EntryPayload.membership mem) = refl

  abbrev entry_batch : Entry LogId Membership → Meta LogId StoredMembership → WriteBatch
  entry_batch entry m =
      WriteBatch.put (push_all WriteBatch.new (payload_ops t entry.payload)) sm_meta_key
        (codec.meta_bytes m).0

  ops-entry_batch :
      (entry : Entry LogId Membership) (m : Meta LogId StoredMembership)
      → (entry_batch entry m).ops
        ≡ payload_ops t entry.payload ++ put sm_meta_key (codec.meta_bytes m).0 ∷ []
  unfolding WriteBatch.put WriteBatch.push
  ops-entry_batch entry m =
      ap (λ ops. ops ++ put sm_meta_key (codec.meta_bytes m).0 ∷ [])
        (ops-push_all WriteBatch.new (payload_ops t entry.payload))

  apply_entry_lem :
      (sm : StateMachineStore LogId StoredMembership) (entry : Entry LogId Membership)
      (m : Meta LogId StoredMembership)
      → entry_meta t sm.inner entry ≡ m
      → apply_entry t sm entry
        ≡ write_entry t
            (record sm { inner = m })
            (payload_ops t entry.payload)
            (ok (codec.meta_bytes m).0)
  unfolding apply_entry
  apply_entry_lem sm entry m e = rw (e, (codec.meta_bytes m).1) refl

  apply_entry_written :
      (sm : StateMachineStore LogId StoredMembership) (entry : Entry LogId Membership) (f : View)
      (m : Meta LogId StoredMembership)
      → Holds t sm f m
      → All InOrder (payload_ops t entry.payload)
      → ((apply_entry t sm entry).1 ≡ ok tt)
        × Holds t
            (apply_entry t sm entry).0
            (view_ops (payload_ops t entry.payload) f)
            (entry_meta t m entry)
  apply_entry_written sm entry f m h o =
      let n = entry_meta t m entry in
      let b = Memory.write_batch sm.store (entry_batch entry n) in
      let (r, k) =
        batch-Holds sm (record sm { inner = n; store = b.0 }) (payload_ops t entry.payload)
          (entry_batch entry n) f m n h o (ops-entry_batch entry n) refl refl in
      rw (apply_entry_lem sm entry n (ap (λ i. entry_meta t i entry) h.inner)) (rw r refl, k)

  apply_entry-Holds :
      (sm : StateMachineStore LogId StoredMembership) (entry : Entry LogId Membership) (f : View)
      (m : Meta LogId StoredMembership)
      → Holds t sm f m
      → All InOrder (ops_in t entry.payload)
      → ((apply_entry t sm entry).1 ≡ ok tt)
        × Holds t
            (apply_entry t sm entry).0
            (view_ops (ops_in t entry.payload) f)
            (after_entries t (entry ∷ []) m)
  apply_entry-Holds sm entry f m h o =
      let same = payload_ops-ops_in entry.payload in
      let (r, k) = apply_entry_written sm entry f m h (subst (All InOrder) (sym same) o) in
      (
        r,
        subst
            (λ ops.
              Holds t (apply_entry t sm entry).0 (view_ops ops f) (after_entries t (entry ∷ []) m))
            same
            (subst (Holds t (apply_entry t sm entry).0 (view_ops (payload_ops t entry.payload) f))
              (entry_meta-after_entries m entry.log_id entry.payload) k),
      )

  apply_rest_lem :
      (rest : StateMachineStore LogId StoredMembership → Update t (List AresaResponse))
      (response : AresaResponse) (u : Update t (Unit {0}))
      → u.1 ≡ ok tt
      → apply_rest t rest response u
        ≡ ((rest u.0).0, (do responses ← (rest u.0).1; ok (response ∷ responses)))
  apply_rest_lem rest response u h = rw h refl

  apply_entries_cons :
      (entry : Entry LogId Membership) (entries : List (Entry LogId Membership))
      (sm : StateMachineStore LogId StoredMembership)
      → (apply_entry t sm entry).1 ≡ ok tt
      → apply_entries t (entry ∷ entries) sm ≡ (
        (apply_entries t entries (apply_entry t sm entry).0).0,
        (do
          responses ← (apply_entries t entries (apply_entry t sm entry).0).1
          ok (response_to t entry.payload ∷ responses)),
      )
  unfolding apply_entries
  apply_entries_cons entry entries sm r = rw (← payload_response-response_to entry.payload) (
      apply_rest_lem (apply_entries t entries) (payload_response t entry.payload)
        (apply_entry t sm entry) r)

  apply_entries-Holds :
      (entries : List (Entry LogId Membership)) (sm : StateMachineStore LogId StoredMembership)
      (f : View) (m : Meta LogId StoredMembership)
      → Holds t sm f m
      → AllInOrder t entries
      → ((apply_entries t entries sm).1 ≡ ok (responses t entries))
        × Holds t
            (apply_entries t entries sm).0
            (view_ops (all_ops t entries) f)
            (after_entries t entries m)
  apply_entries-Holds [] sm f m h o = unfold apply_entries in (refl, h)
  apply_entries-Holds (entry ∷ entries) sm f m h o =
      let (r, k) = apply_entry-Holds sm entry f m h o.0 in
      let (rs, ks) =
        apply_entries-Holds entries (apply_entry t sm entry).0 (view_ops (ops_in t entry.payload) f)
          (after_entries t (entry ∷ []) m) k o.1 in
      rw
        (
          apply_entries_cons entry entries sm r,
          view_ops-append (ops_in t entry.payload) (all_ops t entries) f,
        )
        (rw rs refl, ks)

  -- Entries that are applied to an open store give the response of each, leave the user's keys as all
  -- their operations do, one entry after another, and leave the metadata of the last one in memory
  -- and in its row. bincode reads back what it wrote, and no range delete has its bounds out of
  -- order.
  pub apply-Holds :
      (sm : StateMachineStore LogId StoredMembership) (entries : List (Entry LogId Membership))
      (f : View) (m : Meta LogId StoredMembership)
      → Holds t sm f m
      → AllInOrder t entries
      → ((apply t sm entries).1 ≡ ok (responses t entries))
        × Holds t
            (apply t sm entries).0
            (view_ops (all_ops t entries) f)
            (after_entries t entries m)
  unfolding apply Memory.flush Memory.ensure_open
  apply-Holds sm entries f m h o =
      let (r, k) = apply_entries-Holds entries sm f m h o in (rw (r, k.is_open) refl, k)
