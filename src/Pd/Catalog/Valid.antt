-- ===== src/Pd/Catalog/Valid.antt =====
-- The well-formedness of a catalog.
use aresadb.Prelude.{◌<◌, ◌≡◌, true, some}
use aresadb.Ord.Nat.{nat_ord}
use aresadb.Ord.Bytes.{Bytes, bytes_ord}
use aresadb.Map
use aresadb.Map.{IsSorted}
use aresadb.Pd.Types.{RangeId, GroupId, RangeDescriptor, contains, has_non_empty_span, u64_mod}
use aresadb.Pd.Catalog.State.{Catalog}

-- `d` is the descriptor that the catalog holds under the id `i`.
abbrev pub Holds : Catalog → RangeId → RangeDescriptor → Type 0
Holds c i d = Map.get i c.ranges ≡ some d

-- Every range stands under its own id, has a key, shares none with another range, and is what the
-- index by start keys has at its start; that index names no other range. The id counter is past
-- every id and fits a `u64`.
pub record IsValid (c : Catalog) : Type 0 where
  pub own_id : (i : RangeId) (d : RangeDescriptor) → Holds c i d → d.range_id ≡ i
  pub non_empty : (i : RangeId) (d : RangeDescriptor) → Holds c i d → has_non_empty_span d ≡ true
  pub disjoint :
      (i j : RangeId) (d e : RangeDescriptor) (key : Bytes)
      → Holds c i d
      → Holds c j e
      → contains d key ≡ true
      → contains e key ≡ true
      → i ≡ j
  pub indexed :
      (i : RangeId) (d : RangeDescriptor) → Holds c i d → Map.get d.start_key c.by_start ≡ some i
  pub owned :
      (s : Bytes) (i : RangeId)
      → Map.get s c.by_start ≡ some i
      → (d : RangeDescriptor) × (Map.get i c.ranges ≡ some d) × (d.start_key ≡ s)
  pub below : (i : RangeId) (d : RangeDescriptor) → Holds c i d → i < c.next_range_id
  pub fits : c.next_range_id < u64_mod
  pub sorted : IsSorted c.by_start

-- The index by Raft groups has each range under its group and names no other range, so no two
-- ranges have one group; the id counter is past every group.
pub record GroupsUnique (c : Catalog) : Type 0 where
  pub group_indexed :
      (i : RangeId) (d : RangeDescriptor)
      → Holds c i d
      → Map.get d.raft_group_id c.by_group ≡ some i
  pub group_owned :
      (g : GroupId) (i : RangeId)
      → Map.get g c.by_group ≡ some i
      → (d : RangeDescriptor) × (Map.get i c.ranges ≡ some d) × (d.raft_group_id ≡ g)
  pub group_below :
      (i : RangeId) (d : RangeDescriptor) → Holds c i d → d.raft_group_id < c.next_range_id
