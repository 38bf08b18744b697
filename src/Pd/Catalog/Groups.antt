-- ===== src/Pd/Catalog/Groups.antt =====
-- Raft group ids in crates/aresadb-pd/src/catalog.rs: when they are unique, and when they are not.
use aresadb.Prelude.{
  ◌+◌, ◌<◌, ◌≡◌, ◌≢◌, refl, true, some, if◌then◌else◌, arith, Bool-cases, inl, inr, ◌==◌,
}
use aresadb.Ord.Nat.{nat_ord}
use aresadb.Ord.Bytes.{Bytes, bytes_ord}
use aresadb.Map
use aresadb.Map.{IsSorted}
use aresadb.Pd.Types.{RangeId, RangeDescriptor, u64_mod}
use aresadb.Pd.Catalog.State.{Catalog}
use aresadb.Pd.Error.{ok}
use aresadb.Pd.Catalog.Apply.{split_state, split_range, split_rhs, split_lhs, inside}
use aresadb.Pd.Catalog.Valid.{IsValid, Holds}
use aresadb.Pd.Catalog.Split.{get-split}

module _ {c : Catalog} (v : IsValid c) (p : RangeId) (parent : RangeDescriptor) (split_key : Bytes)
    (hp : Holds c p parent) (ins : inside parent split_key ≡ true)
    (room : c.next_range_id + 1 < u64_mod) where
  -- The right range of a split shares its group with a range that has the id counter as its own.
  split_state-group_clash :
      (i : RangeId) (d : RangeDescriptor)
      → Holds c i d
      → d.raft_group_id ≡ c.next_range_id
      → (e : RangeDescriptor) × (Map.get i (split_state c p parent split_key).ranges ≡ some e)
        × (Map.get c.next_range_id (split_state c p parent split_key).ranges
            ≡ some (split_rhs c parent split_key))
        × (i ≢ c.next_range_id)
        × (e.raft_group_id ≡ c.next_range_id)
  split_state-group_clash i d h same = elim (Bool-cases (p == i)) [
    | inl e ↦ (
      split_lhs parent split_key,
      ground (arith, look i, v.below p parent hp),
      ground (arith, look c.next_range_id),
      ground (arith, v.below i d h),
      ground arith,
    )
    | inr e ↦ (
      d,
      ground (arith, look i, v.below i d h),
      ground (arith, look c.next_range_id),
      ground (arith, v.below i d h),
      ground arith,
    )
  ]
    where
      look :
          (j : RangeId)
          → Map.get j (split_state c p parent split_key).ranges ≡ (
              if c.next_range_id == j
              then some (split_rhs c parent split_key)
              else if p == j
              then some (split_lhs parent split_key)
              else Map.get j c.ranges)
      look = get-split v p parent split_key hp ins room

-- The id counter is also the group id of the range that a split creates, and `split_range` does not
-- look the group up: on a well-formed catalog that has a range of this group, a split at a key inside
-- its parent, whose id has room, is accepted, and after it two ranges share one group.
pub split_range-group_clash :
    (c : Catalog) (p : RangeId) (parent : RangeDescriptor) (split_key : Bytes) (i : RangeId)
    (d : RangeDescriptor)
    → IsValid c
    → Holds c p parent
    → inside parent split_key ≡ true
    → c.next_range_id + 1 < u64_mod
    → Holds c i d
    → d.raft_group_id ≡ c.next_range_id
    → (e : RangeDescriptor) × (f : RangeDescriptor) × ((split_range c p split_key).1 ≡ ok f)
      × (Map.get i (split_range c p split_key).0.ranges ≡ some e)
      × (Map.get f.range_id (split_range c p split_key).0.ranges ≡ some f)
      × (i ≢ f.range_id)
      × (e.raft_group_id ≡ f.raft_group_id)
unfolding split_range
split_range-group_clash c p parent split_key i d v hp ins room h same =
    let (e, left, right, apart, shared) =
      split_state-group_clash v p parent split_key hp ins room i d h same in
    rw (hp, ins) (e, split_rhs c parent split_key, refl, left, right, apart, shared)
