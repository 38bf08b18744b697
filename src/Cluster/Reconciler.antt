-- ===== src/Cluster/Reconciler.antt =====
-- crates/aresadb-cluster/src/pd_supervisor/reconciler.rs: what a node must open and close to run the
-- ranges that the placement driver assigns to it.
pub mod Plan
use aresadb.Prelude.{
  ℕ, ◌+◌, Bool, true, false, not, ◌&&◌, ◌||◌, List, [], ◌∷◌, ◌==◌, leb, length, if◌then◌else◌,
}
use aresadb.Ord.Nat.{nat_ord}
use aresadb.Map
use aresadb.Map.{BTreeMap}
use aresadb.Pd.Types.{RangeId, NodeId, RangeDescriptor, ReplicaPlacement}

-- A `BTreeSet` is a map to nothing.
abbrev pub BTreeSet : Type 0 → Type 0
BTreeSet K = BTreeMap K (Unit {0})

pub record ReconcilePlan : Type 0 where
  pub to_add : List RangeDescriptor
  pub to_remove : List RangeId

abbrev is_nil {ℓ} : {A : Type ℓ} → List A → Bool
is_nil [] = true
is_nil _ = false

unfoldable pub is_empty : ReconcilePlan → Bool
is_empty plan = is_nil plan.to_add && is_nil plan.to_remove

unfoldable pub action_count : ReconcilePlan → ℕ
action_count plan = length plan.to_add + length plan.to_remove

abbrev pub hosts : NodeId → List ReplicaPlacement → Bool
hosts node_id [] = false
hosts node_id (p ∷ replicas) = (p.node_id == node_id) || hosts node_id replicas

abbrev pub assign :
    NodeId
    → List RangeDescriptor
    → BTreeMap RangeId RangeDescriptor
    → BTreeMap RangeId RangeDescriptor
assign node_id [] pd_assigned = pd_assigned
assign node_id (r ∷ pd_ranges) pd_assigned =
    assign node_id pd_ranges
      (if hosts node_id r.replicas then Map.insert r.range_id r pd_assigned else pd_assigned)

abbrev pub collect_ids : List RangeDescriptor → BTreeSet RangeId → BTreeSet RangeId
collect_ids [] ids = ids
collect_ids (d ∷ local_descriptors) ids =
    collect_ids local_descriptors (Map.insert d.range_id tt ids)

-- `sort_by_key` and `sort_unstable`, as insertion sorts: equal ids cannot be told apart in the
-- second, and the first keeps their order.
abbrev pub insert_by_id : RangeDescriptor → List RangeDescriptor → List RangeDescriptor
insert_by_id d [] = d ∷ []
insert_by_id d (e ∷ ds) =
    let rest = insert_by_id d ds in if leb d.range_id e.range_id then d ∷ e ∷ ds else e ∷ rest

abbrev pub sort_by_id : List RangeDescriptor → List RangeDescriptor
sort_by_id [] = []
sort_by_id (d ∷ ds) = insert_by_id d (sort_by_id ds)

abbrev pub insert_id : RangeId → List RangeId → List RangeId
insert_id i [] = i ∷ []
insert_id i (j ∷ ids) = let rest = insert_id i ids in if leb i j then i ∷ j ∷ ids else j ∷ rest

abbrev pub sort_ids : List RangeId → List RangeId
sort_ids [] = []
sort_ids (i ∷ ids) = insert_id i (sort_ids ids)

abbrev pub missing :
    BTreeSet RangeId → BTreeSet RangeId → List RangeDescriptor → List RangeDescriptor
missing local_ids skip [] = []
missing local_ids skip (d ∷ ds) =
    let rest = missing local_ids skip ds in
    if not (Map.contains_key d.range_id local_ids) && not (Map.contains_key d.range_id skip)
    then d ∷ rest
    else rest

abbrev pub surplus :
    BTreeSet RangeId → BTreeMap RangeId RangeDescriptor → List RangeDescriptor → List RangeId
surplus skip pd_assigned [] = []
surplus skip pd_assigned (d ∷ ds) =
    let rest = surplus skip pd_assigned ds in
    if Map.contains_key d.range_id skip || Map.contains_key d.range_id pd_assigned
    then rest
    else d.range_id ∷ rest

unfoldable pub plan_reconcile :
    NodeId → List RangeDescriptor → List RangeDescriptor → BTreeSet RangeId → ReconcilePlan
plan_reconcile node_id pd_ranges local_descriptors skip_local_ranges =
    let pd_assigned = assign node_id pd_ranges [] in
    let local_ids = collect_ids local_descriptors [] in
    record {
      to_add = sort_by_id (missing local_ids skip_local_ranges (Map.values pd_assigned));
      to_remove = sort_ids (surplus skip_local_ranges pd_assigned local_descriptors);
    }
