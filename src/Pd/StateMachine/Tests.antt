-- ===== src/Pd/StateMachine/Tests.antt =====
-- Runs of the persistent state machine and the theorems at concrete inputs.
use aresadb.Pd.Persist
use aresadb.Ord.Nat.{nat_ord}
use aresadb.Prelude.{
  ℕ, false, sym, subst, ◌≡◌, ◌↔◌, refl, compare, none, some, [], ◌∷◌, ◌++◌, arith,
}
use aresadb.Map
use aresadb.Map.Neighbours
use aresadb.Core.Memory
use aresadb.Core.WriteBatch
use aresadb.Pd.Types
use aresadb.Pd.Types.{NodeInfo, RangeDescriptor, u64_mod, has_non_empty_span}
use aresadb.Pd.Error.{Result}
use aresadb.Pd.Command.{PdCommand, range, done}
use aresadb.Pd.Catalog.State
use aresadb.Pd.Catalog.Apply
use aresadb.Pd.Catalog.Invariant.{new-IsValid}
use aresadb.Pd.Persist.{range_key, range_id_from_key, range_prefix}
use aresadb.BigEndian.{be_bytes, put_u64, from_be_bytes}
use aresadb.Pd.Persist.Keys.{range_key-order, range_id_from_key-exact}
use aresadb.Ord.Bytes.{cmp_bytes}
use aresadb.Pd.StateMachine
use aresadb.Pd.StateMachine.{ok, err, PdApplyError, Bincode, PdStateMachine, apply_inner}
use aresadb.Pd.StateMachine.Recovery.{open_store}
use aresadb.Pd.StateMachine.Scanned.{CanOpen, ReadsBack}
use aresadb.Pd.StateMachine.Restored.{SameRanges, open_store-restores}
use aresadb.Core.Memory.{MemoryBackend}
use aresadb.Pd.StateMachine.Progress.{IsTotal, apply_inner-commits}
use aresadb.Pd.StateMachine.Disk.{IsInSync, apply_inner-IsInSync}

-- A row of this codec is the id alone.
abbrev ids_only : Bincode
ids_only = record {
  serialize_range = λ d. some (put_u64 d.range_id);
  deserialize_range = λ k. some (Types.new (from_be_bytes 0 k) [] [] []);
  serialize_node = λ n. some (put_u64 n.node_id);
  deserialize_node = λ k. none;
}

abbrev fresh : PdStateMachine
fresh = record { store = Memory.new; catalog = State.new }

abbrev genesis : RangeDescriptor
genesis = Types.new 1 [] [] []

fresh-IsInSync : IsInSync ids_only fresh
unfolding Map.get
fresh-IsInSync = record {
  valid = new-IsValid;
  nodes_own = λ i n h. absurd (cc h);
  mirrors = λ i u. refl;
  mirrors_nodes = λ i u. refl;
}

created : (apply_inner ids_only fresh (PdCommand.create_range genesis) none).1 ≡ ok (range genesis)
unfolding apply_inner Apply.apply Apply.create_range Apply.insert_range State.check_create
    has_non_empty_span Map.contains_key Map.get State.find_overlap Neighbours.floor Map.last
    Map.filter_keys Neighbours.above Map.first StateMachine.build_write_batch StateMachine.put_range
    StateMachine.commit Memory.write_batch WriteBatch.put WriteBatch.push Memory.ensure_open
    Memory.flush Memory.write_op Memory.write_ops Map.insert
created = refl

apply_inner-IsInSync_example :
    ((Apply.apply State.new (PdCommand.create_range genesis)).1 ≡ Result.ok (range genesis))
    × ((apply_inner ids_only fresh (PdCommand.create_range genesis) none).0.catalog
        ≡ (Apply.apply State.new (PdCommand.create_range genesis)).0)
    × IsInSync ids_only (apply_inner ids_only fresh (PdCommand.create_range genesis) none).0
apply_inner-IsInSync_example =
    apply_inner-IsInSync ids_only fresh (PdCommand.create_range genesis) none (range genesis)
      fresh-IsInSync (omega arith) tt created

ids_only-IsTotal : IsTotal ids_only
ids_only-IsTotal = record {
  range_bytes = λ d. (put_u64 d.range_id, refl);
  node_bytes = λ n. (put_u64 n.node_id, refl);
}

accepted : (Apply.apply State.new (PdCommand.create_range genesis)).1 ≡ Result.ok (range genesis)
unfolding Apply.apply Apply.create_range State.check_create has_non_empty_span Map.contains_key
    Map.get State.find_overlap Neighbours.floor Map.last Map.filter_keys Neighbours.above Map.first
accepted = refl

abbrev node_4 : NodeInfo
node_4 = record { node_id = 4; address = "node"; stores = []; last_heartbeat_millis = 9 }

apply_inner-commits_example :
    ((apply_inner ids_only fresh (PdCommand.register_node node_4) (some (7 ∷ []))).1 ≡ ok done)
    × ((apply_inner ids_only fresh (PdCommand.register_node node_4) (some (7 ∷ []))).0.catalog
        ≡ (Apply.apply State.new (PdCommand.register_node node_4)).0)
    × IsInSync ids_only
        (apply_inner ids_only fresh (PdCommand.register_node node_4) (some (7 ∷ []))).0
apply_inner-commits_example =
    apply_inner-commits ids_only ids_only-IsTotal fresh (PdCommand.register_node node_4)
      (some (7 ∷ [])) done fresh-IsInSync tt (omega arith) refl (unfold Apply.apply in refl)

range_key-order_example : cmp_bytes (range_key 3) (range_key 258) ≡ compare 3 258
range_key-order_example = range_key-order 3 258 (omega arith) (omega arith)

range_id_from_key-exact_example :
    (range_id_from_key (range_prefix ++ (0 ∷ 0 ∷ 0 ∷ 0 ∷ 0 ∷ 0 ∷ 1 ∷ 2 ∷ [])) ≡ some 258)
    ↔ (range_prefix ++ (0 ∷ 0 ∷ 0 ∷ 0 ∷ 0 ∷ 0 ∷ 1 ∷ 2 ∷ []) ≡ range_key 258)
range_id_from_key-exact_example =
    range_id_from_key-exact (range_prefix ++ (0 ∷ 0 ∷ 0 ∷ 0 ∷ 0 ∷ 0 ∷ 1 ∷ 2 ∷ [])) 258 (omega arith)
      (omega arith)

abbrev with_genesis : PdStateMachine
with_genesis = (apply_inner ids_only fresh (PdCommand.create_range genesis) none).0

abbrev genesis_store : MemoryBackend
genesis_store = record { contents = (range_key 1, put_u64 1) ∷ []; is_closed = false }

with_genesis_lem :
    (with_genesis.store ≡ genesis_store) × (with_genesis.catalog.ranges ≡ (1, genesis) ∷ [])
unfolding apply_inner Apply.apply Apply.create_range Apply.insert_range State.check_create
    has_non_empty_span Map.contains_key Map.get State.find_overlap Neighbours.floor Map.last
    Map.filter_keys Neighbours.above Map.first StateMachine.build_write_batch StateMachine.put_range
    StateMachine.commit Memory.write_batch WriteBatch.put WriteBatch.push Memory.ensure_open
    Memory.flush Memory.write_op Memory.write_ops Map.insert
with_genesis_lem = (refl, refl)

genesis_store-CanOpen : CanOpen ids_only genesis_store
unfolding range_key Persist.node_id_from_key Persist.strip_prefix
genesis_store-CanOpen = record {
  is_open = refl;
  is_sorted = (tt, tt);
  keys_are_bytes = (omega arith, tt);
  nodes_read = ((λ i e. cc), tt);
}

read_genesis :
    (i : ℕ) (d : RangeDescriptor)
    → Map.get i ((1, genesis) ∷ []) ≡ some d
    → ids_only.deserialize_range (put_u64 d.range_id) ≡ some d
unfolding Map.get from_be_bytes be_bytes
read_genesis i d h =
    let same : genesis ≡ d = ground (arith, h) in
    subst (λ x. ids_only.deserialize_range (put_u64 x.range_id) ≡ some x) same refl

genesis-ReadsBack : ReadsBack ids_only with_genesis.catalog
genesis-ReadsBack i d h =
    let held : Map.get i ((1, genesis) ∷ []) ≡ some d =
      subst (λ m. Map.get i m ≡ some d) with_genesis_lem.1 h in
    (put_u64 d.range_id, refl, read_genesis i d held)

open_store-restores_example :
    (sm' : PdStateMachine) × (open_store ids_only with_genesis.store ≡ ok sm')
    × (sm'.store ≡ with_genesis.store)
    × SameRanges with_genesis.catalog sm'.catalog
open_store-restores_example =
    open_store-restores ids_only with_genesis apply_inner-IsInSync_example.2.valid
      apply_inner-IsInSync_example.2.mirrors
      (subst (CanOpen ids_only) (sym with_genesis_lem.0) genesis_store-CanOpen) genesis-ReadsBack
