-- ===== src/Pd/Tests.antt =====
-- Runs of the placement driver's code and the theorems at concrete inputs.
use mathlib.Core.Path.{subst}
use aresadb.Prelude.{
  ◌↔◌, ◌<◌, ◌≤◌, ◌≡◌, ◌≢◌, refl, true, false, none, some, List, [], ◌∷◌, arith, ◌⊎◌,
}
use aresadb.Ord.Nat.{nat_ord}
use aresadb.Ord.Bytes.{Bytes, bytes_ord}
use aresadb.Span.{in_span}
use aresadb.Map
use aresadb.Map.Neighbours
use aresadb.Map.{IsSorted}
use aresadb.Pd.Types.{
  RangeId, NodeId, NodeInfo, ReplicaPlacement, LeaseInfo, RangeDescriptor, contains,
  has_non_empty_span, incr, u64_mod,
}
use aresadb.Pd.Error.{ok, panicked}
use aresadb.Pd.Command.{PdCommand}
use aresadb.Pd.Replicas.{replica_sets_equal}
use aresadb.Pd.Catalog.State.{Catalog, find_range_for_key, new, check_create, find_overlap}
use aresadb.Pd.Catalog.Apply.{
  apply, register_node, create_range, insert_range, split_range, split_state, split_rhs, split_lhs,
  inside, merge_ranges, merge_found, drop_range, merged, update_membership,
}
use aresadb.Pd.Catalog.Valid.{IsValid, Holds}
use aresadb.Pd.Types
use aresadb.Pd.Error.{range_already_exists}
use aresadb.Pd.Catalog.Lookup.{find_range_for_key-exact}
use aresadb.Pd.Catalog.Overlap.{Overlaps, find_overlap-exact}
use aresadb.Pd.Catalog.Routes.{split_range-routes, merge_ranges-routes}
use aresadb.Pd.Catalog.Invariant.{run, new-IsValid, run-IsValid}
use aresadb.Pd.Catalog.Split.{split_state-IsValid}
use aresadb.Pd.Catalog.History.{apply-err, apply-no_panic}
use aresadb.Pd.Catalog.Counters.{split_range-fresh}
use aresadb.Pd.Catalog.Epochs.{epoch-apply, update_membership-accepted}
use aresadb.Pd.Catalog.Heartbeats.{BeatAtLeast, heartbeat-apply}
use aresadb.Pd.Catalog.Groups.{split_range-group_clash}

abbrev k_p : Bytes
k_p = b'p' ∷ []

abbrev k_m : Bytes
k_m = b'm' ∷ []

-- One range for the whole keyspace, whose Raft group is 2.
abbrev genesis : RangeDescriptor
genesis = record (Types.new 1 [] [] []) { raft_group_id = 2 }

abbrev node_1 : NodeInfo
node_1 = record { node_id = 1; address = "n1"; stores = []; last_heartbeat_millis = 7 }

abbrev log : List PdCommand
log = PdCommand.register_node node_1 ∷ PdCommand.create_range genesis ∷ []

abbrev whole : Catalog
whole = record {
  ranges = (1, genesis) ∷ [];
  by_start = ([], 1) ∷ [];
  by_group = (2, 1) ∷ [];
  nodes = (1, node_1) ∷ [];
  next_range_id = 2;
}

run-log : run new log ≡ whole
unfolding apply register_node create_range check_create find_overlap insert_range has_non_empty_span
    Map.contains_key Map.get Neighbours.floor Map.last Map.filter_keys Neighbours.above Map.first
    Map.insert
run-log = refl

run-IsValid_example : IsValid (run new log)
run-IsValid_example = run-IsValid new log new-IsValid (tt, (omega arith, tt))

whole-IsValid : IsValid whole
whole-IsValid = subst IsValid run-log (run-IsValid new log new-IsValid (tt, (omega arith, tt)))

whole-Holds : Holds whole 1 genesis
unfolding Map.get
whole-Holds = refl

inside_m : inside genesis k_m ≡ true
inside_m = refl

-- The range that a split at `m` creates, and the catalog after it.
abbrev right_half : RangeDescriptor
right_half = split_rhs whole genesis k_m

abbrev halves : Catalog
halves = split_state whole 1 genesis k_m

find_range_for_key-exact_example :
    (find_range_for_key whole k_m ≡ some genesis)
    ↔ ((i : RangeId) × (Map.get i whole.ranges ≡ some genesis) × (contains genesis k_m ≡ true))
find_range_for_key-exact_example = find_range_for_key-exact whole-IsValid k_m genesis

find_overlap-exact_example :
    ((find_overlap whole k_m [] ≡ ok none)
      × ((i : RangeId) (d : RangeDescriptor) (key : Bytes)
          → Holds whole i d
          → contains d key ≡ true
          → in_span k_m [] key ≡ false))
    ⊎ ((i : RangeId) × (find_overlap whole k_m [] ≡ ok (some i)) × Overlaps whole i k_m [])
find_overlap-exact_example = find_overlap-exact whole-IsValid k_m [] refl

split_at_m : (split_range whole 1 k_m).1 ≡ ok right_half
unfolding split_range Map.get
split_at_m = refl

split_range-routes_example : find_range_for_key (split_range whole 1 k_m).0 k_p ≡ some right_half
unfolding contains
split_range-routes_example =
    split_range-routes whole-IsValid 1 genesis right_half k_m k_p whole-Holds (omega arith)
      split_at_m

halves-IsValid : IsValid halves
halves-IsValid = split_state-IsValid whole-IsValid 1 genesis k_m whole-Holds inside_m (omega arith)

left-Holds : Holds halves 1 (split_lhs genesis k_m)
unfolding split_state Map.get Map.insert
left-Holds = refl

right-Holds : Holds halves 2 right_half
unfolding split_state Map.get Map.insert
right-Holds = refl

merge_back : (merge_ranges halves 1 2).1 ≡ ok tt
unfolding split_state merge_ranges merge_found replica_sets_equal Map.get Map.insert drop_range
    Map.remove
merge_back = refl

merge_ranges-routes_example :
    find_range_for_key (merge_ranges halves 1 2).0 k_p
    ≡ some (merged (split_lhs genesis k_m) (split_lhs genesis k_m) right_half)
unfolding contains
merge_ranges-routes_example =
    merge_ranges-routes halves-IsValid 1 2 (split_lhs genesis k_m) right_half k_p left-Holds
      right-Holds merge_back

apply-err_example : (apply whole (PdCommand.create_range genesis)).0 ≡ whole
unfolding apply create_range check_create has_non_empty_span Map.contains_key Map.get
apply-err_example = apply-err whole (PdCommand.create_range genesis) (range_already_exists 1) refl

apply-no_panic_example : (apply whole (PdCommand.merge_ranges 1 1)).1 ≢ panicked
apply-no_panic_example = apply-no_panic whole (PdCommand.merge_ranges 1 1) whole-IsValid

-- The halves are merged, and the whole is split again: the new half has another id.
abbrev again : Catalog
again = run (split_range whole 1 k_m).0 (PdCommand.merge_ranges 1 2 ∷ [])

abbrev second_half : RangeDescriptor
second_half =
    split_rhs again (merged (split_lhs genesis k_m) (split_lhs genesis k_m) right_half) k_p

split_at_p : (split_range again 1 k_p).1 ≡ ok second_half
unfolding split_range split_state merge_ranges merge_found replica_sets_equal Map.get Map.insert
    drop_range Map.remove apply
split_at_p = refl

split_range-fresh_example :
    ((i : RangeId) (d : RangeDescriptor) → Holds whole i d → i < right_half.range_id)
    × (right_half.range_id < second_half.range_id)
split_range-fresh_example =
    split_range-fresh whole 1 k_m right_half (PdCommand.merge_ranges 1 2 ∷ []) 1 k_p second_half
      whole-IsValid (omega arith) split_at_m (tt, tt) split_at_p

lease_kept : Holds (apply whole (PdCommand.split_range 1 k_m)).0 1 (split_lhs genesis k_m)
unfolding apply split_range split_state Map.get Map.insert
lease_kept = refl

epoch-apply_example : genesis.epoch ≤ (split_lhs genesis k_m).epoch
epoch-apply_example =
    epoch-apply whole (PdCommand.split_range 1 k_m) 1 genesis (split_lhs genesis k_m) whole-IsValid
      whole-Holds lease_kept

update_membership-accepted_example :
    ((update_membership whole 1 [] 5).1 ≡ ok tt)
    ↔ ((d : RangeDescriptor) × (Map.get 1 whole.ranges ≡ some d) × (d.epoch < 5))
update_membership-accepted_example = update_membership-accepted whole 1 [] 5

node_1-registered : Map.get 1 whole.nodes ≡ some node_1
unfolding Map.get
node_1-registered = refl

heartbeat-apply_example : BeatAtLeast (apply whole (PdCommand.register_node node_1)).0 1 7
heartbeat-apply_example =
    heartbeat-apply whole (PdCommand.register_node node_1) 1 node_1 node_1-registered

split_range-group_clash_example :
    (e : RangeDescriptor) × (f : RangeDescriptor) × ((split_range whole 1 k_m).1 ≡ ok f)
    × (Map.get 1 (split_range whole 1 k_m).0.ranges ≡ some e)
    × (Map.get f.range_id (split_range whole 1 k_m).0.ranges ≡ some f)
    × (1 ≢ f.range_id)
    × (e.raft_group_id ≡ f.raft_group_id)
split_range-group_clash_example =
    split_range-group_clash whole 1 genesis k_m 1 genesis whole-IsValid whole-Holds inside_m
      (omega arith) whole-Holds refl
