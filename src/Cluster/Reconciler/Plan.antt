-- ===== src/Cluster/Reconciler/Plan.antt =====
-- What a plan of the reconciler opens and closes.
use aresadb.Prelude.{
  ◌≡◌, refl, Bool, false, not, ◌&&◌, ◌||◌, List, [], ◌∷◌, ◌==◌, All, arith, Ordering, Bool-cases,
  compare, inl, inr,
}
use aresadb.Ord.Nat.{nat_ord}
use aresadb.Map
use aresadb.Map.{BTreeMap}
use aresadb.Map.Laws.{get-insert}
use aresadb.Pd.Types.{RangeId, NodeId, RangeDescriptor, ReplicaPlacement}
use aresadb.Cluster.Reconciler.{
  BTreeSet, hosts, assign, collect_ids, insert_by_id, sort_by_id, insert_id, sort_ids, missing,
  surplus, plan_reconcile,
}

-- A descriptor of the list has the id.
abbrev pub has_id : RangeId → List RangeDescriptor → Bool
has_id i [] = false
has_id i (d ∷ ds) = (d.range_id == i) || has_id i ds

abbrev pub elem : RangeId → List RangeId → Bool
elem i [] = false
elem i (j ∷ ids) = (j == i) || elem i ids

-- The nodes that hold a replica.
abbrev pub nodes_of : List ReplicaPlacement → List NodeId
nodes_of [] = []
nodes_of (p ∷ replicas) = p.node_id ∷ nodes_of replicas

-- The placement driver has a range of this id with a replica on the node.
abbrev pub is_assigned : NodeId → RangeId → List RangeDescriptor → Bool
is_assigned n i [] = false
is_assigned n i (r ∷ ranges) =
    (r.range_id == i) && elem n (nodes_of r.replicas) || is_assigned n i ranges

hosts-nodes_of :
    (n : NodeId) (replicas : List ReplicaPlacement) → hosts n replicas ≡ elem n (nodes_of replicas)
hosts-nodes_of n [] = refl
hosts-nodes_of n (p ∷ replicas) = ground (arith, hosts-nodes_of n replicas)

contains_key-insert {κ} :
    {V : Type κ} (k j : RangeId) (v : V) (m : BTreeMap RangeId V)
    → Map.contains_key j (Map.insert k v m) ≡ ((k == j) || Map.contains_key j m)
unfolding Map.contains_key
contains_key-insert k j v m = ground (arith, get-insert k j v m)

contains_key-assign :
    (n : NodeId) (i : RangeId) (ranges : List RangeDescriptor)
    (m : BTreeMap RangeId RangeDescriptor)
    → Map.contains_key i (assign n ranges m) ≡ (is_assigned n i ranges || Map.contains_key i m)
contains_key-assign n i [] m = refl
contains_key-assign n i (r ∷ ranges) m = ground (
  arith,
  contains_key-assign n i ranges m,
  contains_key-assign n i ranges (Map.insert r.range_id r m),
  contains_key-insert r.range_id i r m,
  hosts-nodes_of n r.replicas,
)

contains_key-collect_ids :
    (i : RangeId) (ds : List RangeDescriptor) (m : BTreeSet RangeId)
    → Map.contains_key i (collect_ids ds m) ≡ (has_id i ds || Map.contains_key i m)
contains_key-collect_ids i [] m = refl
contains_key-collect_ids i (d ∷ ds) m = ground (
  arith,
  contains_key-collect_ids i ds (Map.insert d.range_id tt m),
  contains_key-insert d.range_id i tt m,
)

elem-insert_id :
    (i j : RangeId) (ids : List RangeId) → elem i (insert_id j ids) ≡ ((j == i) || elem i ids)
elem-insert_id i j [] = refl
elem-insert_id i j (k ∷ ids) = ground (arith, elem-insert_id i j ids)

elem-sort_ids : (i : RangeId) (ids : List RangeId) → elem i (sort_ids ids) ≡ elem i ids
elem-sort_ids i [] = refl
elem-sort_ids i (j ∷ ids) = ground (arith, elem-sort_ids i ids, elem-insert_id i j (sort_ids ids))

has_id-insert_by_id :
    (i : RangeId) (d : RangeDescriptor) (ds : List RangeDescriptor)
    → has_id i (insert_by_id d ds) ≡ ((d.range_id == i) || has_id i ds)
has_id-insert_by_id i d [] = refl
has_id-insert_by_id i d (e ∷ ds) = ground (arith, has_id-insert_by_id i d ds)

has_id-sort_by_id :
    (i : RangeId) (ds : List RangeDescriptor) → has_id i (sort_by_id ds) ≡ has_id i ds
has_id-sort_by_id i [] = refl
has_id-sort_by_id i (d ∷ ds) =
    ground (arith, has_id-sort_by_id i ds, has_id-insert_by_id i d (sort_by_id ds))

has_id-missing :
    (i : RangeId) (ids skip : BTreeSet RangeId) (ds : List RangeDescriptor)
    → has_id i (missing ids skip ds)
      ≡ (has_id i ds && not (Map.contains_key i ids) && not (Map.contains_key i skip))
has_id-missing i ids skip [] = refl
has_id-missing i ids skip (d ∷ ds) = ground (arith, has_id-missing i ids skip ds)

elem-surplus :
    (i : RangeId) (skip : BTreeSet RangeId) (m : BTreeMap RangeId RangeDescriptor)
    (ds : List RangeDescriptor)
    → elem i (surplus skip m ds)
      ≡ (has_id i ds && not (Map.contains_key i skip) && not (Map.contains_key i m))
elem-surplus i skip m [] = refl
elem-surplus i skip m (d ∷ ds) = ground (arith, elem-surplus i skip m ds)

nothing : (i : RangeId) → Map.contains_key {V = RangeDescriptor} i [] ≡ false
unfolding Map.contains_key Map.get
nothing i = refl

empty : (i : RangeId) → Map.contains_key {V = Unit {0}} i [] ≡ false
unfolding Map.contains_key Map.get
empty i = refl

-- Every descriptor stands under its own id.
abbrev Keyed : BTreeMap RangeId RangeDescriptor → Type 0
Keyed m = All (λ e. e.1.range_id ≡ e.0) m

insert-Keyed :
    (d : RangeDescriptor) (m : BTreeMap RangeId RangeDescriptor)
    → Keyed m
    → Keyed (Map.insert d.range_id d m)
unfolding Map.insert
insert-Keyed d [] h = (refl, tt)
insert-Keyed d ((j, e) ∷ m) h = at (compare d.range_id j) (insert-Keyed d m h.1)
  where
    at :
        (c : Ordering)
        → Keyed (Map.insert d.range_id d m)
        → Keyed (Map.insert_at c d.range_id d (j, e) m (Map.insert d.range_id d m))
    at Ordering.lt r = (refl, h)
    at Ordering.eq r = (refl, h.1)
    at Ordering.gt r = (h.0, r)

assign-Keyed :
    (n : NodeId) (ranges : List RangeDescriptor) (m : BTreeMap RangeId RangeDescriptor)
    → Keyed m
    → Keyed (assign n ranges m)
assign-Keyed n [] m h = h
assign-Keyed n (r ∷ ranges) m h = elim (Bool-cases (hosts n r.replicas)) [
  | inl e ↦ rw e (assign-Keyed n ranges (Map.insert r.range_id r m) (insert-Keyed r m h))
  | inr e ↦ rw e (assign-Keyed n ranges m h)
]

has_id-values :
    (i : RangeId) (m : BTreeMap RangeId RangeDescriptor)
    → Keyed m
    → has_id i (Map.values m) ≡ Map.contains_key i m
unfolding Map.values Map.contains_key Map.get
has_id-values i [] h = refl
has_id-values i ((j, d) ∷ m) h = ground (arith, has_id-values i m h.1, h.0)

-- The plan opens an id exactly when the placement driver has a range of it with a replica on the
-- node, no local range has it, and it is not skipped.
pub plan_reconcile-to_add :
    (n : NodeId) (pd local : List RangeDescriptor) (skip : BTreeSet RangeId) (i : RangeId)
    → has_id i (plan_reconcile n pd local skip).to_add
      ≡ (is_assigned n i pd && not (has_id i local) && not (Map.contains_key i skip))
unfolding plan_reconcile
plan_reconcile-to_add n pd local skip i = ground (
  arith,
  has_id-sort_by_id i (missing (collect_ids local []) skip (Map.values (assign n pd []))),
  has_id-missing i (collect_ids local []) skip (Map.values (assign n pd [])),
  has_id-values i (assign n pd []) (assign-Keyed n pd [] tt),
  contains_key-assign n i pd [],
  contains_key-collect_ids i local [],
  empty i,
  nothing i,
)

-- The plan closes an id exactly when a local range has it, it is not skipped, and the placement
-- driver has no range of it with a replica on the node.
pub plan_reconcile-to_remove :
    (n : NodeId) (pd local : List RangeDescriptor) (skip : BTreeSet RangeId) (i : RangeId)
    → elem i (plan_reconcile n pd local skip).to_remove
      ≡ (has_id i local && not (Map.contains_key i skip) && not (is_assigned n i pd))
unfolding plan_reconcile
plan_reconcile-to_remove n pd local skip i = ground (
  arith,
  elem-sort_ids i (surplus skip (assign n pd []) local),
  elem-surplus i skip (assign n pd []) local,
  contains_key-assign n i pd [],
  nothing i,
)
