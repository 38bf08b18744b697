-- ===== src/Raft/Tests.antt =====
-- Runs of the log store and of the state machine, and the theorems at concrete inputs.
mod Codec
use aresadb.Prelude.{ℕ, List, Option, ◌≡◌, refl, true, false, ◌&&◌, none, some, [], ◌∷◌, arith}
use aresadb.Ord.{eq?}
use aresadb.Ord.Bytes.{Bytes, bytes_ord}
use aresadb.Map
use aresadb.Core.KeyRange
use aresadb.Core.WriteBatch
use aresadb.Core.WriteBatch.{WriteBatch}
use aresadb.Core.WriteBatch.Op
use aresadb.Core.Memory
use aresadb.Core.Memory.{MemoryBackend}
use aresadb.Core.Memory.Batch.{View, view_ops}
use aresadb.Raft.Error.{Stored, ok, ErrorSubject}
use aresadb.Raft.LogStore.{
  log_key, log_range, excluded, included, u64_max, read_vote, read_committed, read_meta_log_id,
  meta_purged,
}
use aresadb.Raft.LogStore.Ranges.{contains-log_range, above_start, below_end}
use aresadb.Raft.LogStore.Spec.{Op, run, after_all, AllFit, Implements, empty_log}
use aresadb.Raft.LogStore.Refines.{run-Implements, run-reads}
use aresadb.Raft.Command
use aresadb.Raft.Command.{
  SerializableWriteOp, AresaCommand, from_serializable, to_serializable,
  from_serializable-to_serializable,
}
use aresadb.Raft.StateMachine.{
  Meta, StateMachineStore, StoredSnapshot, Entry, EntryPayload, apply, applied_state, open_store,
  new_sync, sm_meta_key,
}
use aresadb.Raft.StateMachine.Install.{build_snapshot, install_snapshot, get_current_snapshot}
use aresadb.Raft.StateMachine.Spec.{AllInOrder, Holds, responses, all_ops, after_entries}
use aresadb.Raft.StateMachine.Apply.{apply-Holds}
use aresadb.Raft.StateMachine.Reopen.{open_store-apply}
use aresadb.Raft.StateMachine.Snapshots.{install-build_snapshot, replaced}
use Codec.{numbers, numbers-IsLawful, counts, counts-HasCodec}

contains-log_range_example :
    KeyRange.contains (log_range (excluded 4) (included u64_max)) (log_key 5)
    ≡ (above_start (excluded 4) 5 && below_end (included u64_max) 5)
contains-log_range_example =
    contains-log_range (excluded 4) (included u64_max) 5 (omega arith) (omega arith) (omega arith)

empty-Implements : Implements numbers Memory.new empty_log
unfolding Map.get
empty-Implements = record {
  is_open = refl;
  entries = λ i u. refl;
  vote = refl;
  committed = refl;
  purged = refl;
}

abbrev calls : List (Op ℕ ℕ ℕ)
calls =
    Op.append (3 ∷ 4 ∷ 5 ∷ [])
    ∷ Op.truncate 5
    ∷ Op.save_vote 7
    ∷ Op.purge 3
    ∷ Op.save_committed (some 4)
    ∷ Op.append (5 ∷ [])
    ∷ []

calls-AllFit : AllFit numbers calls empty_log
calls-AllFit = (
  (omega arith, (omega arith, (omega arith, tt))),
  (omega arith, (tt, ((omega arith, tt), (tt, ((omega arith, tt), tt))))),
)

run-Implements_example :
    Implements numbers (run numbers Memory.new calls) (after_all numbers calls empty_log)
run-Implements_example =
    run-Implements numbers numbers-IsLawful Memory.new calls empty_log empty-Implements calls-AllFit

run-reads_example :
    (read_vote numbers (run numbers Memory.new calls) ≡ ok (some 7))
    × (read_committed numbers (run numbers Memory.new calls) ≡ ok (some 4))
    × (read_meta_log_id numbers (run numbers Memory.new calls) meta_purged ErrorSubject.store
        ≡ ok (some 3))
run-reads_example = run-reads numbers numbers-IsLawful calls calls-AllFit

abbrev shipped : WriteBatch
shipped = record {
  ops = Op.put (1 ∷ []) (2 ∷ []) ∷ Op.delete (3 ∷ []) ∷ Op.delete_range (4 ∷ []) (5 ∷ []) ∷ [];
}

from_serializable-to_serializable_example : from_serializable (to_serializable shipped) ≡ shipped
from_serializable-to_serializable_example = from_serializable-to_serializable shipped

abbrev start : Meta ℕ ℕ
start = record { last_applied = none; last_membership = 0 }

abbrev fresh : StateMachineStore ℕ ℕ
fresh = record { store = Memory.new; inner = start; current_snapshot = none; snapshot_idx = 0 }

abbrev nothing : View
nothing k = none

fresh-Holds : Holds counts fresh nothing start
unfolding Map.get
fresh-Holds = record {
  is_open = refl;
  is_sorted = tt;
  inner = refl;
  row = refl;
  rows = λ j n. refl;
}

-- A write, a change of membership and an empty entry.
abbrev committed : List (Entry ℕ ℕ)
committed =
    record {
      log_id = 1;
      payload = EntryPayload.normal (AresaCommand.write_batch (to_serializable shipped));
    }
    ∷ record { log_id = 2; payload = EntryPayload.membership 9 }
    ∷ record { log_id = 3; payload = EntryPayload.blank }
    ∷ []

committed-AllInOrder : AllInOrder counts committed
unfolding from_serializable to_serializable Command.fill WriteBatch.put WriteBatch.delete
    WriteBatch.delete_range WriteBatch.push
committed-AllInOrder = ((tt, (tt, (refl, tt))), (tt, (tt, tt)))

apply-Holds_example :
    ((apply counts fresh committed).1 ≡ ok (responses counts committed))
    × Holds counts
        (apply counts fresh committed).0
        (view_ops (all_ops counts committed) nothing)
        (after_entries counts committed start)
apply-Holds_example =
    apply-Holds counts counts-HasCodec fresh committed nothing start fresh-Holds
      committed-AllInOrder

abbrev applied : StateMachineStore ℕ ℕ
applied = (apply counts fresh committed).0

abbrev applied_view : View
applied_view = view_ops (all_ops counts committed) nothing

abbrev finish : Meta ℕ ℕ
finish = record { last_applied = some 3; last_membership = 9 }

open_store-apply_example :
    (sm' : StateMachineStore ℕ ℕ) × (open_store counts applied.store ≡ ok sm')
    × (applied_state counts sm' ≡ (some 3, 9))
    × (sm'.current_snapshot ≡ none)
    × ((j : Bytes) → eq? sm_meta_key j ≡ false → Map.get j sm'.store.contents ≡ applied_view j)
open_store-apply_example =
    open_store-apply counts counts-HasCodec fresh committed nothing start fresh-Holds
      committed-AllInOrder

install-build_snapshot_example :
    (snap : StoredSnapshot ℕ ℕ) × ((build_snapshot counts applied).1 ≡ ok snap)
    × (get_current_snapshot counts (build_snapshot counts applied).0 ≡ some snap)
    × ((install_snapshot counts fresh snap.meta snap.bytes).1 ≡ ok tt)
    × Holds counts
        (install_snapshot counts fresh snap.meta snap.bytes).0
        (replaced counts counts-HasCodec applied_view nothing)
        finish
    × (get_current_snapshot counts (install_snapshot counts fresh snap.meta snap.bytes).0
        ≡ some snap)
install-build_snapshot_example =
    install-build_snapshot counts counts-HasCodec applied fresh applied_view nothing finish start
      apply-Holds_example.1 fresh-Holds
