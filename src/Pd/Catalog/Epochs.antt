-- ===== src/Pd/Catalog/Epochs.antt =====
-- The epochs of crates/aresadb-pd/src/catalog.rs only go up.
use aresadb.Prelude.{
  ℕ, ◌<◌, ◌≤◌, ◌≡◌, refl, Option, none, some, List, arith, inl, inr, Option-cases, ◌↔◌,
}
use aresadb.Ord.Nat.{nat_ord}
use aresadb.Ord.Bytes.{Bytes, bytes_ord}
use aresadb.Map
use aresadb.Map.{IsSorted}
use aresadb.Map.Laws.{get-insert, get-remove}
use aresadb.Pd.Types.{RangeId, ReplicaPlacement, RangeDescriptor}
use aresadb.Pd.Error.{Result, ok, err, panicked}
use aresadb.Pd.Command.{PdCommand}
use aresadb.Pd.Catalog.State.{Catalog, check_create}
use aresadb.Pd.Catalog.Apply.{
  apply, register_node, heartbeat_node, create_range, create_checked, insert_range, split_range,
  split_found, split_state, split_rhs, split_lhs, merge_ranges, merge_found, merge_left,
  merge_right, drop_range, merged, update_membership, update_lease,
}
use aresadb.Pd.Catalog.Valid.{IsValid, Holds}
use aresadb.Pd.Catalog.Create.{check_create-IsFree}

create_checked-epoch :
    (c : Catalog) (desc : RangeDescriptor) (r : Result (Unit {0})) (i : RangeId)
    (d d' : RangeDescriptor)
    → check_create c desc ≡ r
    → Holds c i d
    → Holds (create_checked c desc r).0 i d'
    → d.epoch ≤ d'.epoch
unfolding insert_range
create_checked-epoch c desc (ok u) i d d' e h g =
    ground (arith, get-insert desc.range_id i desc c.ranges, (check_create-IsFree c desc e).new_id)
create_checked-epoch c desc (err x) i d d' e h g = ground arith
create_checked-epoch c desc panicked i d d' e h g = ground arith

split_found-epoch :
    (c : Catalog) (p : RangeId) (key : Bytes) (o : Option RangeDescriptor) (i : RangeId)
    (d d' : RangeDescriptor)
    → IsValid c
    → Map.get p c.ranges ≡ o
    → Holds c i d
    → Holds (split_found c p key o).0 i d'
    → d.epoch ≤ d'.epoch
unfolding split_state
split_found-epoch c p key none i d d' v e h g = ground arith
split_found-epoch c p key (some parent) i d d' v e h g = ground (
  arith,
  v.below i d h,
  get-insert c.next_range_id i (split_rhs c parent key)
      (Map.insert p (split_lhs parent key) c.ranges),
  get-insert p i (split_lhs parent key) c.ranges,
)

merge_found-epoch :
    (c : Catalog) (left right : RangeId) (l r : RangeDescriptor) (i : RangeId)
    (d d' : RangeDescriptor)
    → Holds c i d
    → Holds (merge_found c left right l r).0 i d'
    → d.epoch ≤ d'.epoch
unfolding merge_found drop_range
merge_found-epoch c left right l r i d d' h g =
    elim (Option-cases (Map.get left (Map.remove right c.ranges))) [
      | inl e ↦ ground (arith, get-remove right i c.ranges)
      | inr (stored, e) ↦ ground (
        arith,
        get-remove right i c.ranges,
        get-remove right left c.ranges,
        get-insert left i (merged stored l r) (Map.remove right c.ranges),
      )
    ]

merge_left-epoch :
    (c : Catalog) (left right : RangeId) (o : Option RangeDescriptor) (i : RangeId)
    (d d' : RangeDescriptor)
    → Holds c i d
    → Holds (merge_left c left right o).0 i d'
    → d.epoch ≤ d'.epoch
merge_left-epoch c left right none i d d' h g = ground arith
merge_left-epoch c left right (some l) i d d' h g = on_right (Map.get right c.ranges) g
  where
    on_right :
        (o : Option RangeDescriptor)
        → Holds (merge_right c left right l o).0 i d'
        → d.epoch ≤ d'.epoch
    on_right none g = ground arith
    on_right (some r) g = merge_found-epoch c left right l r i d d' h g

-- Over any command, accepted or not, the epoch of a range that stays in a well-formed catalog does
-- not fall.
pub epoch-apply :
    (c : Catalog) (cmd : PdCommand) (i : RangeId) (d d' : RangeDescriptor)
    → IsValid c
    → Holds c i d
    → Holds (apply c cmd).0 i d'
    → d.epoch ≤ d'.epoch
unfolding apply
epoch-apply c (PdCommand.register_node info) i d d' v h g = unfold register_node in ground arith
epoch-apply c (PdCommand.heartbeat_node n t) i d d' v h g = unfold heartbeat_node in ground arith
epoch-apply c (PdCommand.create_range desc) i d d' v h g =
    create_checked-epoch c desc (check_create c desc) i d d' refl h (unfold create_range in g)
epoch-apply c (PdCommand.split_range p key) i d d' v h g =
    split_found-epoch c p key (Map.get p c.ranges) i d d' v refl h (unfold split_range in g)
epoch-apply c (PdCommand.merge_ranges left right) i d d' v h g =
    merge_left-epoch c left right (Map.get left c.ranges) i d d' h (unfold merge_ranges in g)
epoch-apply c (PdCommand.update_membership j reps epoch) i d d' v h g =
    unfold update_membership in
    elim (Option-cases (Map.get j c.ranges)) [
      | inl e ↦ ground arith
      | inr (old, e) ↦
          ground (arith, get-insert j i (record old { replicas = reps; epoch = epoch }) c.ranges)
    ]
epoch-apply c (PdCommand.update_lease j lease) i d d' v h g =
    unfold update_lease in
    elim (Option-cases (Map.get j c.ranges)) [
      | inl e ↦ ground arith
      | inr (old, e) ↦ ground (arith, get-insert j i (record old { lease = lease }) c.ranges)
    ]

-- A membership change is accepted exactly when the range is there and the new epoch is greater
-- than its own.
pub update_membership-accepted :
    (c : Catalog) (i : RangeId) (reps : List ReplicaPlacement) (epoch : ℕ)
    → ((update_membership c i reps epoch).1 ≡ ok tt)
      ↔ ((d : RangeDescriptor) × (Map.get i c.ranges ≡ some d) × (d.epoch < epoch))
unfolding update_membership
update_membership-accepted c i reps epoch = elim (Option-cases (Map.get i c.ranges)) [
  | inl e ↦ (λ h. absurd (ground arith), λ h. ground (arith, h.1))
  | inr (d, e) ↦ (λ h. (d, e, ground arith), λ h. ground (arith, h.1, h.2))
]
