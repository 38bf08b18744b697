-- ===== src/Pd/Catalog/Create.antt =====
-- `create_range` of crates/aresadb-pd/src/catalog.rs keeps a catalog well formed.
use aresadb.Prelude.{
  ℕ, ◌+◌, ◌<◌, ◌≤◌, ◌≡◌, ◌≢◌, refl, true, false, none, some, if◌then◌else◌, arith, Bool-cases, inl,
  inr, ◌⊎◌, ◌==◌,
}
use aresadb.Ord.{eq?, eq?_iff}
use aresadb.Ord.Nat.{nat_ord}
use aresadb.Ord.Bytes.{Bytes, bytes_ord}
use aresadb.Span.{in_span}
use aresadb.Map
use aresadb.Map.{IsSorted}
use aresadb.Map.Laws.{get-insert}
use aresadb.Map.Sorted.{insert-IsSorted}
use aresadb.Pd.Types.{RangeId, RangeDescriptor, contains, has_non_empty_span, u64_mod}
use aresadb.Pd.Error.{Result, ok, err, panicked}
use aresadb.Pd.Catalog.State.{Catalog, find_overlap, check_create}
use aresadb.Pd.Catalog.Apply.{create_range, insert_range, create_checked}
use aresadb.Pd.Catalog.Valid.{IsValid, GroupsUnique, Holds}
use aresadb.Pd.Catalog.Lookup.{contains-start_key}
use aresadb.Pd.Catalog.Overlap.{find_overlap-exact}

-- What the checks of `create_range` establish.
pub record IsFree (c : Catalog) (desc : RangeDescriptor) : Type 0 where
  pub has_key : has_non_empty_span desc ≡ true
  pub new_id : Map.get desc.range_id c.ranges ≡ none
  pub new_group :
      (Map.get desc.raft_group_id c.by_group ≡ none)
      ⊎ (Map.get desc.raft_group_id c.by_group ≡ some desc.range_id)
  pub no_overlap : find_overlap c desc.start_key desc.end_key ≡ ok none

pub check_create-IsFree :
    (c : Catalog) (desc : RangeDescriptor) → check_create c desc ≡ ok tt → IsFree c desc
unfolding check_create Map.contains_key
check_create-IsFree c desc h = record {
  has_key = ground arith;
  new_id = ground arith;
  new_group = ground arith;
  no_overlap = ground arith;
}

pub in_own_span :
    (d : RangeDescriptor)
    → has_non_empty_span d ≡ true
    → in_span d.start_key d.end_key d.start_key ≡ true
in_own_span d h = unfold contains in contains-start_key d h

-- A free span shares no key with a range of the catalog.
apart :
    {c : Catalog} (v : IsValid c) (desc : RangeDescriptor)
    → IsFree c desc
    → (i : RangeId) (d : RangeDescriptor) (key : Bytes) → Holds c i d
    → contains d key ≡ true
    → contains desc key ≡ false
unfolding contains
apart v desc f i d key h k =
    elim (find_overlap-exact v desc.start_key desc.end_key (in_own_span desc f.has_key)) [
      | inl r ↦ r.1 i d key h k
      | inr (j, e, o) ↦ absurd (ground (arith, f.no_overlap))
    ]

module _ {c : Catalog} (v : IsValid c) (desc : RangeDescriptor) (f : IsFree c desc) where
  start_unused :
      (s : Bytes) (i : RangeId) → Map.get s c.by_start ≡ some i → eq? desc.start_key s ≡ false
  start_unused s i h =
      let (d, holds, starts) = v.owned s i h in
      ground (
        arith,
        eq?_iff desc.start_key s,
        contains-start_key desc f.has_key,
        contains-start_key d (v.non_empty i d holds),
        apart v desc f i d d.start_key holds,
      )

  Holds-insert_range :
      (i : RangeId) (d : RangeDescriptor)
      → Holds (insert_range c desc) i d
      → ((desc.range_id ≡ i) × (desc ≡ d)) ⊎ ((desc.range_id ≢ i) × Holds c i d)
  unfolding insert_range
  Holds-insert_range i d h = ground (arith, get-insert desc.range_id i desc c.ranges)

  owned-insert_range :
      (s : Bytes) (i : RangeId)
      → Map.get s (insert_range c desc).by_start ≡ some i
      → (d : RangeDescriptor) × (Map.get i (insert_range c desc).ranges ≡ some d)
        × (d.start_key ≡ s)
  unfolding insert_range
  owned-insert_range s i h = elim (Bool-cases (eq? desc.start_key s)) [
    | inl e ↦ (
      desc,
      ground (
        arith,
        get-insert desc.start_key s desc.range_id c.by_start,
        get-insert desc.range_id i desc c.ranges,
      ),
      (eq?_iff desc.start_key s).0 e,
    )
    | inr e ↦
        let old : Map.get s c.by_start ≡ some i =
          ground (arith, get-insert desc.start_key s desc.range_id c.by_start) in
        let (d, holds, starts) = v.owned s i old in
        (d, ground (arith, get-insert desc.range_id i desc c.ranges, f.new_id), starts)
  ]

  pub insert_range-IsValid : desc.range_id + 1 < u64_mod → IsValid (insert_range c desc)
  unfolding insert_range
  insert_range-IsValid small = record {
    own_id = λ i d h. ground (arith, Holds-insert_range i d h, v.own_id i d);
    non_empty = λ i d h. ground (arith, Holds-insert_range i d h, v.non_empty i d, f.has_key);
    disjoint = λ i j d e key h g k l. ground (
      arith,
      Holds-insert_range i d h,
      Holds-insert_range j e g,
      v.disjoint i j d e key,
      apart v desc f i d key,
      apart v desc f j e key,
    );
    indexed = λ i d h. ground (
      arith,
      Holds-insert_range i d h,
      v.indexed i d,
      get-insert desc.start_key d.start_key desc.range_id c.by_start,
      start_unused d.start_key i,
      eq?_iff desc.start_key d.start_key,
    );
    owned = λ s i h. owned-insert_range s i h;
    below = λ i d h. ground (arith, Holds-insert_range i d h, v.below i d);
    fits = ground (arith, v.fits);
    sorted = insert-IsSorted desc.start_key desc.range_id c.by_start v.sorted;
  }

  group-insert_range :
      (g : ℕ)
      → Map.get g (insert_range c desc).by_group
        ≡ (if desc.raft_group_id == g then some desc.range_id else Map.get g c.by_group)
  unfolding insert_range
  group-insert_range g = get-insert desc.raft_group_id g desc.range_id c.by_group

  group_free : GroupsUnique c → Map.get desc.raft_group_id c.by_group ≡ none
  group_free u = elim f.new_group [
    | inl e ↦ e
    | inr e ↦
        let (d, holds, same) = u.group_owned desc.raft_group_id desc.range_id e in
        absurd (ground (arith, f.new_id))
  ]

  owned_group-insert_range :
      GroupsUnique c
      → (g i : ℕ) → Map.get g (insert_range c desc).by_group ≡ some i
      → (d : RangeDescriptor) × (Map.get i (insert_range c desc).ranges ≡ some d)
        × (d.raft_group_id ≡ g)
  owned_group-insert_range u g i h = elim (Bool-cases (desc.raft_group_id == g)) [
    | inl e ↦ (
      desc,
      unfold insert_range in
          ground (arith, group-insert_range g, get-insert desc.range_id i desc c.ranges),
      ground arith,
    )
    | inr e ↦
        let old : Map.get g c.by_group ≡ some i = ground (arith, group-insert_range g) in
        let (d, holds, same) = u.group_owned g i old in
        (
          d,
          unfold insert_range in ground (arith, get-insert desc.range_id i desc c.ranges, f.new_id),
          same,
        )
  ]

  -- A range whose group is not past its id keeps the groups unique.
  pub insert_range-GroupsUnique :
      GroupsUnique c
      → desc.range_id + 1 < u64_mod
      → desc.raft_group_id ≤ desc.range_id
      → GroupsUnique (insert_range c desc)
  unfolding insert_range
  insert_range-GroupsUnique u small order = record {
    group_indexed = λ i d h. ground (
      arith,
      Holds-insert_range i d h,
      u.group_indexed i d,
      group-insert_range d.raft_group_id,
      group_free u,
    );
    group_owned = λ g i h. owned_group-insert_range u g i h;
    group_below = λ i d h. ground (arith, Holds-insert_range i d h, u.group_below i d);
  }

create_checked-IsValid :
    (c : Catalog) (desc : RangeDescriptor)
    → IsValid c
    → desc.range_id + 1 < u64_mod
    → (r : Result (Unit {0})) → check_create c desc ≡ r
    → IsValid (create_checked c desc r).0
create_checked-IsValid c desc v small (ok tt) e =
    insert_range-IsValid v desc (check_create-IsFree c desc e) small
create_checked-IsValid c desc v small (err x) e = v
create_checked-IsValid c desc v small panicked e = v

pub create_range-IsValid :
    (c : Catalog) (desc : RangeDescriptor)
    → IsValid c
    → desc.range_id + 1 < u64_mod
    → IsValid (create_range c desc).0
unfolding create_range
create_range-IsValid c desc v small =
    create_checked-IsValid c desc v small (check_create c desc) refl
