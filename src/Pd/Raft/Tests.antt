-- ===== src/Pd/Raft/Tests.antt =====
-- A run of the adapter, and the theorem at a concrete input.
use aresadb.Prelude.{sym, subst, ◌∙◌, ℕ, ◌≡◌, refl, ap, Option, none, some, List, [], ◌∷◌, arith}
use aresadb.Ord.Bytes.{Bytes}
use aresadb.Map
use aresadb.BigEndian.{put_u64}
use aresadb.Core.Memory
use aresadb.Raft.Error.{ok}
use aresadb.Pd.Types
use aresadb.Pd.Command.{PdCommand, PdResponse}
use aresadb.Pd.Catalog.State
use aresadb.Pd.Catalog.State.{Catalog}
use aresadb.Pd.Catalog.Invariant.{new-IsValid, run, run-IsValid}
use aresadb.Map.Neighbours
use aresadb.Ord.Nat.{nat_ord}
use aresadb.Pd.Error
use aresadb.Pd.Types.{NodeInfo, RangeDescriptor, has_non_empty_span}
use aresadb.Pd.Catalog.Apply
use aresadb.Pd.Catalog.State.{get_node, iter_ranges_by_start, iter_nodes, peek_next_range_id}
use aresadb.Pd.StateMachine.Restored.{SameRanges}
use aresadb.Pd.Raft.Snapshots.{payload_of, build_snapshot, install_snapshot, get_current_snapshot}
use aresadb.Pd.Raft.Installs.{SnapshotReadsBack, IsOnDisk, install_snapshot-transfers}
use aresadb.Pd.StateMachine.Nodes.{NodesOwn}
use aresadb.Map.{IsSorted}
use aresadb.Pd.StateMachine.{Bincode}
use aresadb.Pd.Raft.{
  SnapshotPayload, StoredSnapshot, PersistedPdMeta, PdRaftStateMachine, Entry, EntryPayload,
  RaftTypes, apply,
}
use aresadb.Pd.Raft.Spec.{HasCodec, Holds, AllAnswered, after, meta_after}
use aresadb.Pd.Raft.Applies.{apply-replicates}

-- Rows are ids, log ids and memberships are numbers.
abbrev ids_only : Bincode
ids_only = record {
  serialize_range = λ d. some (put_u64 d.range_id);
  deserialize_range = λ k. none;
  serialize_node = λ n. some (put_u64 n.node_id);
  deserialize_node = λ k. none;
}

abbrev meta_bytes : PersistedPdMeta ℕ ℕ → Bytes
meta_bytes m = m.last_membership ∷ elim m.last_applied [ none ↦ [] | some l ↦ l ∷ [] ]

abbrev read_number : Bytes → Option ℕ
read_number [] = none
read_number (n ∷ x) = some n

abbrev read_meta : Bytes → Option (PersistedPdMeta ℕ ℕ)
read_meta [] = none
read_meta (n ∷ x) = some (record { last_applied = read_number x; last_membership = n })

abbrev genesis : RangeDescriptor
genesis = Types.new 1 [] [] []

abbrev node_4 : NodeInfo
node_4 = record { node_id = 4; address = "node"; stores = []; last_heartbeat_millis = 9 }

-- Snapshots are of the first range and one node.
abbrev read_payload : Bytes → Option (SnapshotPayload ℕ ℕ)
read_payload [] = none
read_payload (n ∷ x) = some (record {
  last_applied = none;
  last_membership = 0;
  next_range_id = n;
  ranges = genesis ∷ [];
  nodes = node_4 ∷ [];
})

abbrev counts : RaftTypes ℕ ℕ ℕ
counts = record {
  rows = ids_only;
  default_membership = 0;
  new_membership = λ l mem. mem;
  snapshot_id = λ l idx. "snapshot";
  error_text = λ e. "rejected";
  serialize_meta = λ m. some (meta_bytes m);
  deserialize_meta = read_meta;
  serialize_payload = λ p. some (p.next_range_id ∷ []);
  deserialize_payload = read_payload;
}

read-meta_bytes : (m : PersistedPdMeta ℕ ℕ) → read_meta (meta_bytes m) ≡ some m
read-meta_bytes m = ap (λ l. some (record m { last_applied = l })) (read m.last_applied)
  where
    read : (l : Option ℕ) → read_number (elim l [ none ↦ [] | some l ↦ l ∷ [] ]) ≡ l
    read none = refl
    read (some l) = refl

counts-HasCodec : HasCodec counts
counts-HasCodec = record {
  rows = record {
    range_bytes = λ d. (put_u64 d.range_id, refl);
    node_bytes = λ n. (put_u64 n.node_id, refl);
  };
  meta_bytes = λ m. (meta_bytes m, refl, read-meta_bytes m);
}

abbrev start : PersistedPdMeta ℕ ℕ
start = record { last_applied = none; last_membership = 0 }

abbrev fresh : PdRaftStateMachine ℕ ℕ
fresh = record {
  inner = record { store = Memory.new; catalog = State.new };
  meta = start;
  current_snapshot = none;
  snapshot_idx = 0;
}

fresh-Holds : Holds counts fresh State.new start
unfolding Map.get
fresh-Holds = record {
  in_sync = record {
    valid = new-IsValid;
    nodes_own = λ i n h. absurd (cc h);
    mirrors = λ i u. refl;
    mirrors_nodes = λ i u. refl;
  };
  is_open = refl;
  catalog = refl;
  meta = refl;
  row = refl;
}

-- The second creation is rejected, for the range is there by then.
abbrev committed : List (Entry ℕ ℕ)
committed =
    record { log_id = 0; payload = EntryPayload.membership 5 }
    ∷ record { log_id = 1; payload = EntryPayload.normal (PdCommand.register_node node_4) }
    ∷ record {
      log_id = 2;
      payload = EntryPayload.normal (PdCommand.create_range (Types.new 1 [] [] []));
    }
    ∷ record {
      log_id = 3;
      payload = EntryPayload.normal (PdCommand.create_range (Types.new 1 [] [] []));
    }
    ∷ record { log_id = 4; payload = EntryPayload.normal (PdCommand.merge_ranges 1 2) }
    ∷ record { log_id = 5; payload = EntryPayload.blank }
    ∷ []

apply-replicates_example :
    (responses : List PdResponse) × ((apply counts fresh committed).1 ≡ ok responses)
    × AllAnswered counts State.new committed responses
    × Holds counts
        (apply counts fresh committed).0
        (after counts State.new committed)
        (meta_after counts start committed)
apply-replicates_example =
    apply-replicates counts counts-HasCodec fresh committed State.new start fresh-Holds
      (tt, ((tt, omega arith), ((omega arith, tt), ((omega arith, tt), ((tt, tt), (tt, tt))))))

abbrev source_log : List PdCommand
source_log = PdCommand.register_node node_4 ∷ PdCommand.create_range genesis ∷ []

abbrev source : PdRaftStateMachine ℕ ℕ
source = record fresh { inner = record { store = Memory.new; catalog = run State.new source_log } }

source_lem :
    (iter_ranges_by_start source.inner.catalog ≡ Error.ok (genesis ∷ []))
    × (iter_nodes source.inner.catalog ≡ node_4 ∷ [])
    × (source.inner.catalog.nodes ≡ (4, node_4) ∷ [])
unfolding iter_ranges_by_start iter_nodes Map.values Map.get Map.insert Apply.apply
    Apply.register_node Apply.create_range Apply.insert_range State.check_create has_non_empty_span
    Map.contains_key State.find_overlap Neighbours.floor Map.last Map.filter_keys Neighbours.above
    Map.first
source_lem = (refl, refl, refl)

node_4-own : NodesOwn ((4, node_4) ∷ [])
unfolding Map.get
node_4-own i n g = (ground (arith, g), ground (arith, g))

source-SnapshotReadsBack : SnapshotReadsBack counts source
source-SnapshotReadsBack ds e =
    let same : genesis ∷ [] ≡ ds = ground (arith, e, source_lem.0) in
    (
      peek_next_range_id source.inner.catalog ∷ [],
      refl,
      ap
            (λ ns. some (record {
              last_applied = none;
              last_membership = 0;
              next_range_id = peek_next_range_id source.inner.catalog;
              ranges = genesis ∷ [];
              nodes = ns;
            }))
            (sym source_lem.1)
          ∙ ap (λ ds. some (payload_of counts source ds)) same,
    )

install_snapshot-transfers_example :
    (snap : StoredSnapshot ℕ ℕ) × ((build_snapshot counts source).1 ≡ ok snap)
    × (get_current_snapshot counts (build_snapshot counts source).0 ≡ some snap)
    × ((install_snapshot counts fresh snap.meta snap.bytes).1 ≡ ok tt)
    × SameRanges source.inner.catalog
        (install_snapshot counts fresh snap.meta snap.bytes).0.inner.catalog
    × ((i : ℕ)
        → get_node (install_snapshot counts fresh snap.meta snap.bytes).0.inner.catalog i
          ≡ get_node source.inner.catalog i)
    × ((install_snapshot counts fresh snap.meta snap.bytes).0.meta ≡ source.meta)
    × (get_current_snapshot counts (install_snapshot counts fresh snap.meta snap.bytes).0
        ≡ some snap)
    × IsOnDisk counts counts-HasCodec
        (install_snapshot counts fresh snap.meta snap.bytes).0
        source.meta
install_snapshot-transfers_example =
    install_snapshot-transfers counts counts-HasCodec source fresh
      (run-IsValid State.new source_log new-IsValid (tt, (omega arith, tt)))
      (subst NodesOwn (sym source_lem.2) node_4-own) (subst IsSorted (sym source_lem.2) (tt, tt))
      source-SnapshotReadsBack refl
