-- ===== src/Pd/Catalog/Routes.antt =====
-- Which range owns a key after a split or a merge (crates/aresadb-pd/src/catalog.rs).
use aresadb.Prelude.{
  ◌+◌, ◌<◌, ◌≡◌, refl, sym, ◌∙◌, true, ◌||◌, Option, none, some, if◌then◌else◌, arith, Bool-cases,
  inl, inr, ◌==◌,
}
use aresadb.Ord.{lt?}
use aresadb.Ord.Nat.{nat_ord}
use aresadb.Ord.Bytes.{Bytes, bytes_ord}
use aresadb.Map
use aresadb.Map.{IsSorted}
use aresadb.Pd.Types.{RangeId, RangeDescriptor, contains, u64_mod}
use aresadb.Pd.Error.{ok}
use aresadb.Pd.Catalog.State.{Catalog, find_range_for_key}
use aresadb.Pd.Catalog.Apply.{
  split_range, split_found, split_state, split_rhs, split_lhs, inside, merge_ranges, merge_found,
  merged,
}
use aresadb.Pd.Catalog.Valid.{IsValid, Holds}
use aresadb.Pd.Catalog.Lookup.{find_range_for_key-exact}
use aresadb.Pd.Catalog.Split.{
  contains-split_lhs, contains-split_rhs, get-split, split_state-IsValid,
}
use aresadb.Pd.Catalog.Merge.{
  merge_outcome, far, unlike, joined, Adjacent, merged_state, contains-merged, get-merged_state,
  merged_state-IsValid,
}

found :
    {c : Catalog} (v : IsValid c) (i : RangeId) (d : RangeDescriptor) (key : Bytes)
    → Map.get i c.ranges ≡ some d
    → contains d key ≡ true
    → find_range_for_key c key ≡ some d
found v i d key h k = (find_range_for_key-exact v key d).1 (i, h, k)

-- Outside the keys that an operation touches, the owner stays, if it keeps its descriptor.
unmoved :
    {c c' : Catalog} (v : IsValid c) (v' : IsValid c') (key : Bytes)
    → ((i : RangeId) (d : RangeDescriptor) → Holds c i d → contains d key ≡ true → Holds c' i d)
    → ((i : RangeId) (d : RangeDescriptor) → Holds c' i d → contains d key ≡ true → Holds c i d)
    → find_range_for_key c' key ≡ find_range_for_key c key
unmoved {c} {c'} v v' key keep back =
    go (find_range_for_key c key) (find_range_for_key c' key) refl refl
  where
    go :
        (o o' : Option RangeDescriptor)
        → find_range_for_key c key ≡ o
        → find_range_for_key c' key ≡ o'
        → find_range_for_key c' key ≡ find_range_for_key c key
    go none none e e' = e' ∙ sym e
    go (some d) o' e e' =
        let (i, h, k) = (find_range_for_key-exact v key d).0 e in
        found v' i d key (keep i d h k) k ∙ sym e
    go none (some d) e e' =
        let (i, h, k) = (find_range_for_key-exact v' key d).0 e' in
        e' ∙ sym (found v i d key (back i d h k) k)

-- The routes of the new state, for a parent and a key that pass the checks.
split_state-routes :
    {c : Catalog} (v : IsValid c) (p : RangeId) (parent : RangeDescriptor) (split_key key : Bytes)
    → Holds c p parent
    → inside parent split_key ≡ true
    → c.next_range_id + 1 < u64_mod
    → find_range_for_key (split_state c p parent split_key) key ≡ (
        if contains parent key
        then if lt? key split_key
          then some (split_lhs parent split_key)
          else some (split_rhs c parent split_key)
        else find_range_for_key c key)
split_state-routes {c} v p parent split_key key hp ins room =
    elim (Bool-cases (contains parent key)) [
      | inl e ↦ rw e (elim (Bool-cases (lt? key split_key)) [
        | inl l ↦ rw l (
            found v' p (split_lhs parent split_key) key
              (ground (arith, look p, v.below p parent hp))
              (ground (arith, contains-split_lhs c parent split_key ins key)))
        | inr g ↦ rw g (
            found v' c.next_range_id (split_rhs c parent split_key) key
              (ground (arith, look c.next_range_id))
              (ground (arith, contains-split_rhs c parent split_key ins key)))
      ])
      | inr e ↦ rw e (
          unmoved v v' key (λ i d h k. ground (arith, look i, v.below i d h))
            (λ i d h k. ground (
              arith,
              look i,
              contains-split_lhs c parent split_key ins key,
              contains-split_rhs c parent split_key ins key,
            )))
    ]
  where
    v' : IsValid (split_state c p parent split_key)
    v' = split_state-IsValid v p parent split_key hp ins room

    look :
        (i : RangeId)
        → Map.get i (split_state c p parent split_key).ranges ≡ (
            if c.next_range_id == i
            then some (split_rhs c parent split_key)
            else if p == i
            then some (split_lhs parent split_key)
            else Map.get i c.ranges)
    look i = get-split v p parent split_key hp ins room i

-- The routes of the new state, for two ranges that pass the checks.
merged_state-routes :
    {c : Catalog} (v : IsValid c) (left right : RangeId) (l r : RangeDescriptor) (key : Bytes)
    → Holds c left l
    → Holds c right r
    → Adjacent l r
    → find_range_for_key (merged_state c left right l r) key
      ≡ (if contains l key || contains r key then some (merged l l r) else find_range_for_key c key)
merged_state-routes {c} v left right l r key hl hr adj =
    elim (Bool-cases (contains l key || contains r key)) [
      | inl e ↦ rw e (found v' left (merged l l r) key (ground (arith, look left)) (both ∙ e))
      | inr e ↦ rw e (
          unmoved v v' key (λ i d h k. ground (arith, look i))
            (λ i d h k. ground (arith, look i, both)))
    ]
  where
    v' : IsValid (merged_state c left right l r)
    v' = merged_state-IsValid v left right l r hl hr adj

    look :
        (i : RangeId)
        → Map.get i (merged_state c left right l r).ranges ≡ (
            if left == i
            then some (merged l l r)
            else if right == i
            then none
            else Map.get i c.ranges)
    look i = get-merged_state v left right l r hl hr adj i

    both : contains (merged l l r) key ≡ (contains l key || contains r key)
    both = contains-merged l r key (v.non_empty left l hl) (v.non_empty right r hr) adj

inside_of_ok :
    (c : Catalog) (p : RangeId) (parent rhs : RangeDescriptor) (split_key : Bytes)
    → (split_found c p split_key (some parent)).1 ≡ ok rhs
    → (inside parent split_key ≡ true) × (rhs ≡ split_rhs c parent split_key)
inside_of_ok c p parent rhs split_key h = (ground arith, ground arith)

-- After a split that returns `rhs`, a key of the parent is owned by the parent with its end moved
-- to the split key if it lies below the split key, and by `rhs` otherwise; every other key has the
-- owner, or the gap, that it had. The catalog is well formed and the id counter has room.
pub split_range-routes :
    {c : Catalog} (v : IsValid c) (p : RangeId) (parent rhs : RangeDescriptor)
    (split_key key : Bytes)
    → Holds c p parent
    → c.next_range_id + 1 < u64_mod
    → (split_range c p split_key).1 ≡ ok rhs
    → find_range_for_key (split_range c p split_key).0 key ≡ (
        if contains parent key
        then if lt? key split_key then some (split_lhs parent split_key) else some rhs
        else find_range_for_key c key)
split_range-routes {c} v p parent rhs split_key key hp room h =
    let ok_found : (split_found c p split_key (some parent)).1 ≡ ok rhs =
      unfold split_range in (rw hp at h) in
    let (ins, same) = inside_of_ok c p parent rhs split_key ok_found in
    unfold split_range in
    rw (hp, ins, same) (split_state-routes v p parent split_key key hp ins room)

merge_ranges-found :
    (c : Catalog) (left right : RangeId) (l r : RangeDescriptor)
    → Holds c left l
    → Holds c right r
    → merge_ranges c left right ≡ merge_found c left right l r
unfolding merge_ranges
merge_ranges-found c left right l r hl hr = rw (hl, hr)

-- After a merge that succeeds, a key of either range is owned by the left one, which now ends where
-- the right one did; every other key has the owner, or the gap, that it had. The catalog is well
-- formed and holds `l` and `r` under the two ids.
pub merge_ranges-routes :
    {c : Catalog} (v : IsValid c) (left right : RangeId) (l r : RangeDescriptor) (key : Bytes)
    → Holds c left l
    → Holds c right r
    → (merge_ranges c left right).1 ≡ ok tt
    → find_range_for_key (merge_ranges c left right).0 key
      ≡ (if contains l key || contains r key then some (merged l l r) else find_range_for_key c key)
merge_ranges-routes {c} v left right l r key hl hr h =
    elim (merge_outcome c v left right l r hl hr) [
      | far t e ↦ absurd (cc (rw (merge_ranges-found c left right l r hl hr ∙ e) at h))
      | unlike a t e ↦ absurd (cc (rw (merge_ranges-found c left right l r hl hr ∙ e) at h))
      | joined a t e ↦
          rw (merge_ranges-found c left right l r hl hr ∙ e)
            (merged_state-routes v left right l r key hl hr a)
    ]
