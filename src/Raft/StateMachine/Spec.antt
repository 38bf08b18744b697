-- ===== src/Raft/StateMachine/Spec.antt =====
-- What the state machine promises: the user's keys as the operations of the entries leave them, and
-- the metadata of the last entry, in memory and on disk.
use aresadb.Prelude.{◌≡◌, false, Option, none, some, List, [], ◌∷◌, ◌++◌, ◌%◌, ◌^◌, length, All}
use aresadb.Ord.{eq?}
use aresadb.Ord.Bytes.{Bytes, bytes_ord}
use aresadb.Map
use aresadb.Map.{IsSorted}
use aresadb.Core.WriteBatch.Op.{WriteOp}
use aresadb.Core.Memory.Batch.{View, InOrder}
use aresadb.Raft.Command.{SerializableWriteOp, AresaCommand, AresaResponse}
use aresadb.Raft.StateMachine.{
  Meta, SnapshotPayload, SmTypes, StateMachineStore, Entry, EntryPayload, sm_meta_key,
}

-- bincode reads back what it wrote, and never fails to write.
pub record HasCodec {LogId StoredMembership Membership : Type 0}
    (t : SmTypes LogId StoredMembership Membership) : Type 0 where
  pub meta_bytes :
      (m : Meta LogId StoredMembership)
      → (x : Bytes) × (t.serialize_meta m ≡ some x) × (t.deserialize_meta x ≡ some m)
  pub payload_bytes :
      (p : SnapshotPayload LogId StoredMembership)
      → (x : Bytes) × (t.serialize_payload p ≡ some x) × (t.deserialize_payload x ≡ some p)

-- The operations that those of the wire stand for.
abbrev pub op_of : SerializableWriteOp → WriteOp
op_of (SerializableWriteOp.put key value) = WriteOp.put key value
op_of (SerializableWriteOp.delete key) = WriteOp.delete key
op_of (SerializableWriteOp.delete_range start end) = WriteOp.delete_range start end

abbrev pub ops_of : List SerializableWriteOp → List WriteOp
ops_of [] = []
ops_of (op ∷ ops) = op_of op ∷ ops_of ops

module _ {LogId StoredMembership Membership : Type 0}
    (t : SmTypes LogId StoredMembership Membership) where
  -- The operations that an entry carries, and how many it answers with, a `u32`.
  abbrev pub ops_in : EntryPayload Membership → List WriteOp
  ops_in EntryPayload.blank = []
  ops_in (EntryPayload.normal AresaCommand.noop) = []
  ops_in (EntryPayload.normal (AresaCommand.write_batch sb)) = ops_of sb.ops
  ops_in (EntryPayload.membership mem) = []

  abbrev pub all_ops : List (Entry LogId Membership) → List WriteOp
  all_ops [] = []
  all_ops (entry ∷ entries) = ops_in entry.payload ++ all_ops entries

  abbrev pub response_to : EntryPayload Membership → AresaResponse
  response_to payload = record { ops_applied = length (ops_in payload) % 2 ^ 32 }

  abbrev pub responses : List (Entry LogId Membership) → List AresaResponse
  responses [] = []
  responses (entry ∷ entries) = response_to entry.payload ∷ responses entries

  -- The id of the last entry, and the last membership, with the id of its entry.
  abbrev pub last_id : Option LogId → List (Entry LogId Membership) → Option LogId
  last_id l [] = l
  last_id l (entry ∷ entries) = last_id (some entry.log_id) entries

  abbrev pub membership_by : StoredMembership → LogId → EntryPayload Membership → StoredMembership
  membership_by s log_id EntryPayload.blank = s
  membership_by s log_id (EntryPayload.normal command) = s
  membership_by s log_id (EntryPayload.membership mem) = t.new_membership (some log_id) mem

  abbrev pub last_membership_of :
      StoredMembership → List (Entry LogId Membership) → StoredMembership
  last_membership_of s [] = s
  last_membership_of s (entry ∷ entries) =
      last_membership_of (membership_by s entry.log_id entry.payload) entries

  abbrev pub after_entries :
      List (Entry LogId Membership) → Meta LogId StoredMembership → Meta LogId StoredMembership
  after_entries entries m = record {
    last_applied = last_id m.last_applied entries;
    last_membership = last_membership_of m.last_membership entries;
  }

  -- No operation deletes a range whose bounds are out of order, which panics.
  abbrev pub AllInOrder : List (Entry LogId Membership) → Type 0
  AllInOrder entries = All (λ entry. All InOrder (ops_in entry.payload)) entries

  -- The metadata that a store is opened with: without a row, that of a new one.
  abbrev pub meta_row : Option Bytes → Option (Meta LogId StoredMembership)
  meta_row none = some (record { last_applied = none; last_membership = t.default_membership })
  meta_row (some raw) = t.deserialize_meta raw

  -- The store is open and sorted, its keys other than the metadata's are those of `f`, and both the
  -- metadata in memory and its row are `m`.
  pub record Holds (sm : StateMachineStore LogId StoredMembership) (f : View)
      (m : Meta LogId StoredMembership) : Type 0 where
    pub is_open : sm.store.is_closed ≡ false
    pub is_sorted : IsSorted sm.store.contents
    pub inner : sm.inner ≡ m
    pub row : meta_row (Map.get sm_meta_key sm.store.contents) ≡ some m
    pub rows : (j : Bytes) → eq? sm_meta_key j ≡ false → Map.get j sm.store.contents ≡ f j
