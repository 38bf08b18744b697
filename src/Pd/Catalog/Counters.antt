-- ===== src/Pd/Catalog/Counters.antt =====
-- The counters of crates/aresadb-pd/src/catalog.rs only go up: range ids.
use aresadb.Prelude.{◌+◌, ◌<◌, ◌≤◌, ◌≡◌, Option, none, some, List, [], ◌∷◌, arith}
use aresadb.Ord.Nat.{nat_ord}
use aresadb.Ord.Bytes.{Bytes, bytes_ord}
use aresadb.Map
use aresadb.Map.{IsSorted}
use aresadb.Pd.Types.{RangeId, RangeDescriptor, u64_mod}
use aresadb.Pd.Error.{Result, ok, err, panicked}
use aresadb.Pd.Command.{PdCommand}
use aresadb.Pd.Catalog.State.{Catalog, check_create}
use aresadb.Pd.Catalog.Apply.{
  apply, register_node, heartbeat_node, create_range, create_checked, insert_range, split_range,
  split_found, split_state, merge_ranges, merge_found, merge_left, merge_right, drop_range,
  update_membership, update_lease,
}
use aresadb.Pd.Catalog.Valid.{IsValid, Holds}
use aresadb.Pd.Catalog.Invariant.{HasRoom, LogHasRoom, run}

create_checked-next :
    (c : Catalog) (d : RangeDescriptor) (r : Result (Unit {0}))
    → c.next_range_id ≤ (create_checked c d r).0.next_range_id
unfolding insert_range
create_checked-next c d (ok u) = ground arith
create_checked-next c d (err e) = ground arith
create_checked-next c d panicked = ground arith

split_found-next :
    (c : Catalog) (p : RangeId) (key : Bytes) (o : Option RangeDescriptor)
    → c.next_range_id + 1 < u64_mod
    → c.next_range_id ≤ (split_found c p key o).0.next_range_id
unfolding split_state
split_found-next c p key none r = ground arith
split_found-next c p key (some d) r = ground arith

merge_found-next :
    (c : Catalog) (i j : RangeId) (l r : RangeDescriptor)
    → c.next_range_id ≤ (merge_found c i j l r).0.next_range_id
unfolding merge_found drop_range
merge_found-next c i j l r = ground arith

merge_left-next :
    (c : Catalog) (i j : RangeId) (o : Option RangeDescriptor)
    → c.next_range_id ≤ (merge_left c i j o).0.next_range_id
merge_left-next c i j none = ground arith
merge_left-next c i j (some l) = right (Map.get j c.ranges)
  where
    right : (o : Option RangeDescriptor) → c.next_range_id ≤ (merge_right c i j l o).0.next_range_id
    right none = ground arith
    right (some r) = merge_found-next c i j l r

next-apply :
    (c : Catalog) (cmd : PdCommand)
    → HasRoom c cmd
    → c.next_range_id ≤ (apply c cmd).0.next_range_id
unfolding apply
next-apply c (PdCommand.register_node info) r = unfold register_node in ground arith
next-apply c (PdCommand.heartbeat_node n t) r = unfold heartbeat_node in ground arith
next-apply c (PdCommand.create_range d) r =
    unfold create_range in create_checked-next c d (check_create c d)
next-apply c (PdCommand.split_range p key) r =
    unfold split_range in split_found-next c p key (Map.get p c.ranges) r
next-apply c (PdCommand.merge_ranges i j) r =
    unfold merge_ranges in merge_left-next c i j (Map.get i c.ranges)
next-apply c (PdCommand.update_membership i reps epoch) r = unfold update_membership in ground arith
next-apply c (PdCommand.update_lease i lease) r = unfold update_lease in ground arith

next-run :
    (c : Catalog) (log : List PdCommand)
    → LogHasRoom c log
    → c.next_range_id ≤ (run c log).next_range_id
next-run c [] r = omega arith
next-run c (cmd ∷ log) r = omega (arith, next-apply c cmd r.0, next-run (apply c cmd).0 log r.1)

split_found-id :
    (c : Catalog) (p : RangeId) (key : Bytes) (o : Option RangeDescriptor) (rhs : RangeDescriptor)
    → (split_found c p key o).1 ≡ ok rhs
    → rhs.range_id ≡ c.next_range_id
split_found-id c p key none rhs h = cc
split_found-id c p key (some d) rhs h = ground arith

split_found-past :
    (c : Catalog) (p : RangeId) (key : Bytes) (o : Option RangeDescriptor) (rhs : RangeDescriptor)
    → c.next_range_id + 1 < u64_mod
    → (split_found c p key o).1 ≡ ok rhs
    → rhs.range_id < (split_found c p key o).0.next_range_id
unfolding split_state
split_found-past c p key none rhs r h = cc
split_found-past c p key (some d) rhs r h = ground arith

-- Splits never share an id: on a well-formed catalog whose counter has room, the id that a split
-- allocates is greater than that of every range of the catalog, and after any commands that have
-- room for their ids another split allocates a greater one still, whatever was merged since.
pub split_range-fresh :
    (c : Catalog) (p : RangeId) (key : Bytes) (first : RangeDescriptor) (log : List PdCommand)
    (q : RangeId) (later_key : Bytes) (later : RangeDescriptor)
    → IsValid c
    → c.next_range_id + 1 < u64_mod
    → (split_range c p key).1 ≡ ok first
    → LogHasRoom (split_range c p key).0 log
    → (split_range (run (split_range c p key).0 log) q later_key).1 ≡ ok later
    → ((i : RangeId) (d : RangeDescriptor) → Holds c i d → i < first.range_id)
      × (first.range_id < later.range_id)
unfolding split_range
split_range-fresh c p key first log q later_key later v room h r l =
    let c' = (split_found c p key (Map.get p c.ranges)).0 in
    let here = split_found-id c p key (Map.get p c.ranges) first h in
    (
      λ i d held. omega (arith, v.below i d held, here),
      omega (
        arith,
        split_found-past c p key (Map.get p c.ranges) first room h,
        next-run c' log r,
        split_found-id (run c' log) q later_key (Map.get q (run c' log).ranges) later l,
      ),
    )
