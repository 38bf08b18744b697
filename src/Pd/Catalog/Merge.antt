-- ===== src/Pd/Catalog/Merge.antt =====
-- `merge_ranges` of crates/aresadb-pd/src/catalog.rs: it keeps a catalog well formed, never panics
-- on one, and the left range takes over the keys of the right one.
use aresadb.Prelude.{
  ◌≡◌, ◌≢◌, refl, true, false, not, ◌||◌, Option, none, some, if◌then◌else◌, arith, Bool-cases, inl,
  inr, ◌⊎◌, ◌==◌,
}
use aresadb.Ord.{lt?, eq?, eq?_iff, lt?_irrefl, lt?_trans}
use aresadb.Ord.Nat.{nat_ord}
use aresadb.Ord.Bytes.{Bytes, bytes_ord}
use aresadb.Span.{is_empty, in_span-left, in_span-right}
use aresadb.Map
use aresadb.Map.{IsSorted}
use aresadb.Map.Laws.{get-insert, get-remove}
use aresadb.Map.Sorted.{remove-IsSorted}
use aresadb.Pd.Types.{RangeId, RangeDescriptor, contains, has_non_empty_span}
use aresadb.Pd.Error.{ok, err, panicked, not_adjacent, replica_set_mismatch}
use aresadb.Pd.Replicas.{replica_sets_equal}
use aresadb.Pd.Catalog.State.{Catalog}
use aresadb.Pd.Catalog.Apply.{
  Update, merge_ranges, merge_left, merge_right, merge_found, drop_range, merged,
}
use aresadb.Pd.Catalog.Valid.{IsValid, Holds}

-- The catalog after a merge that succeeds.
pub merged_state : Catalog → RangeId → RangeId → RangeDescriptor → RangeDescriptor → Catalog
merged_state c left right left_desc right_desc = record c {
  by_start = Map.remove right_desc.start_key c.by_start;
  by_group = Map.remove right_desc.raft_group_id c.by_group;
  ranges = Map.insert left (merged left_desc left_desc right_desc) (Map.remove right c.ranges);
}

-- The end of the left range is the start of the right one.
abbrev pub Adjacent : RangeDescriptor → RangeDescriptor → Type 0
Adjacent l r = (l.end_key ≡ r.start_key) × (is_empty l.end_key ≡ false)

-- A merged range holds the keys of both parts.
pub contains-merged :
    (l r : RangeDescriptor) (key : Bytes)
    → has_non_empty_span l ≡ true
    → has_non_empty_span r ≡ true
    → Adjacent l r
    → contains (merged l l r) key ≡ (contains l key || contains r key)
unfolding contains has_non_empty_span
contains-merged l r key hl hr a = ground (
  arith,
  in_span-left l.start_key l.end_key r.end_key key,
  in_span-right l.start_key l.end_key r.end_key key,
)

merged-non_empty :
    (l r : RangeDescriptor)
    → has_non_empty_span l ≡ true
    → has_non_empty_span r ≡ true
    → Adjacent l r
    → has_non_empty_span (merged l l r) ≡ true
unfolding has_non_empty_span
merged-non_empty l r hl hr a = ground (arith, lt?_trans l.start_key l.end_key r.end_key)

module _ {c : Catalog} (v : IsValid c) (left right : RangeId) (l r : RangeDescriptor)
    (hl : Holds c left l) (hr : Holds c right r) (adj : Adjacent l r) where
  pub two_ranges : left ≢ right
  two_ranges e = ground (arith, v.non_empty left l hl, lt?_irrefl l.start_key, unfold_span l)
    where
      unfold_span :
          (d : RangeDescriptor)
          → has_non_empty_span d ≡ true
          → is_empty d.end_key ≡ false
          → lt? d.start_key d.end_key ≡ true
      unfold_span d h n = unfold has_non_empty_span in ground arith

  pub get-merged_state :
      (i : RangeId)
      → Map.get i (merged_state c left right l r).ranges ≡ (
          if left == i
          then some (merged l l r)
          else if right == i
          then none
          else Map.get i c.ranges)
  unfolding merged_state
  get-merged_state i = ground (
    arith,
    get-insert left i (merged l l r) (Map.remove right c.ranges),
    get-remove right i c.ranges,
  )

  start-merged_state :
      (s : Bytes)
      → Map.get s (merged_state c left right l r).by_start
        ≡ (if eq? r.start_key s then none else Map.get s c.by_start)
  unfolding merged_state
  start-merged_state s = get-remove r.start_key s c.by_start

  Holds-merged_state :
      (i : RangeId) (d : RangeDescriptor)
      → Holds (merged_state c left right l r) i d
      → ((left ≡ i) × (merged l l r ≡ d)) ⊎ ((left ≢ i) × (right ≢ i) × Holds c i d)
  Holds-merged_state i d h = ground (arith, get-merged_state i)

  merged_state-disjoint :
      (i j : RangeId) (d e : RangeDescriptor) (key : Bytes)
      → Holds (merged_state c left right l r) i d
      → Holds (merged_state c left right l r) j e
      → contains d key ≡ true
      → contains e key ≡ true
      → i ≡ j
  merged_state-disjoint i j d e key h g k m = ground (
    arith,
    Holds-merged_state i d h,
    Holds-merged_state j e g,
    contains-merged l r key (v.non_empty left l hl) (v.non_empty right r hr) adj,
    v.disjoint i j d e key,
    v.disjoint left j l e key hl,
    v.disjoint i left d l key,
    v.disjoint right j r e key hr,
    v.disjoint i right d r key,
  )

  -- Only the right range starts where it does.
  start_is_right :
      (i : RangeId) (d : RangeDescriptor) → Holds c i d → d.start_key ≡ r.start_key → right ≡ i
  start_is_right i d h e = ground (arith, v.indexed i d h, v.indexed right r hr)

  indexed-merged_state :
      (i : RangeId) (d : RangeDescriptor)
      → Holds (merged_state c left right l r) i d
      → Map.get d.start_key (merged_state c left right l r).by_start ≡ some i
  indexed-merged_state i d h = ground (
    arith,
    Holds-merged_state i d h,
    start-merged_state d.start_key,
    v.indexed i d,
    v.indexed left l hl,
    eq?_iff r.start_key d.start_key,
    start_is_right i d,
    start_is_right left l hl,
    two_ranges,
  )

  owned-merged_state :
      (s : Bytes) (i : RangeId)
      → Map.get s (merged_state c left right l r).by_start ≡ some i
      → (d : RangeDescriptor) × (Map.get i (merged_state c left right l r).ranges ≡ some d)
        × (d.start_key ≡ s)
  owned-merged_state s i h =
      let old : Map.get s c.by_start ≡ some i = ground (arith, start-merged_state s) in
      let (d, holds, starts) = v.owned s i old in
      elim (Bool-cases (left == i)) [
        | inl same ↦ (merged l l r, ground (arith, get-merged_state i), ground (arith, starts))
        | inr other ↦ (
          d,
          ground (arith, get-merged_state i, start-merged_state s, eq?_iff r.start_key s),
          starts,
        )
      ]

  pub merged_state-IsValid : IsValid (merged_state c left right l r)
  merged_state-IsValid = record {
    own_id = λ i d h. ground (arith, Holds-merged_state i d h, v.own_id i d, v.own_id left l hl);
    non_empty = λ i d h. ground (
      arith,
      Holds-merged_state i d h,
      v.non_empty i d,
      merged-non_empty l r (v.non_empty left l hl) (v.non_empty right r hr) adj,
    );
    disjoint = merged_state-disjoint;
    indexed = indexed-merged_state;
    owned = owned-merged_state;
    below = λ i d h.
        unfold merged_state in
        ground (arith, Holds-merged_state i d h, v.below i d, v.below left l hl);
    fits = unfold merged_state in v.fits;
    sorted = unfold merged_state in remove-IsSorted r.start_key c.by_start v.sorted;
  }

  merge_found_lem :
      replica_sets_equal l.replicas r.replicas ≡ true
      → merge_found c left right l r ≡ (merged_state c left right l r, ok tt)
  unfolding merge_found drop_range merged_state
  merge_found_lem same =
      let kept : Map.get left (Map.remove right c.ranges) ≡ some l =
        ground (arith, get-remove right left c.ranges, two_ranges) in
      rw ((eq?_iff l.end_key r.start_key).1 adj.0, adj.1, same, kept)

-- The tests of a merge that goes ahead.
Adjacent-of_tests :
    (l r : RangeDescriptor)
    → (not (eq? l.end_key r.start_key) || is_empty l.end_key) ≡ false
    → Adjacent l r
Adjacent-of_tests l r h = ((eq?_iff l.end_key r.start_key).0 (ground arith), ground arith)

module _ (c : Catalog) (v : IsValid c) (left right : RangeId) where
  -- What a merge of two ranges of the catalog comes to.
  pub data Outcome (l r : RangeDescriptor) (u : Update (Unit {0})) : Type 0 where
    far :
        (not (eq? l.end_key r.start_key) || is_empty l.end_key) ≡ true
        → u ≡ (c, err (not_adjacent left right))
        → Outcome l r u
    unlike :
        Adjacent l r
        → replica_sets_equal l.replicas r.replicas ≡ false
        → u ≡ (c, err (replica_set_mismatch left right))
        → Outcome l r u
    joined :
        Adjacent l r
        → replica_sets_equal l.replicas r.replicas ≡ true
        → u ≡ (merged_state c left right l r, ok tt)
        → Outcome l r u

  pub merge_outcome :
      (l r : RangeDescriptor)
      → Holds c left l
      → Holds c right r
      → Outcome l r (merge_found c left right l r)
  merge_outcome l r hl hr =
      elim (Bool-cases (not (eq? l.end_key r.start_key) || is_empty l.end_key)) [
        | inl e ↦ far e (unfold merge_found in rw e)
        | inr e ↦ elim (Bool-cases (replica_sets_equal l.replicas r.replicas)) [
          | inl same ↦
              let adj = Adjacent-of_tests l r e in
              joined adj same (merge_found_lem v left right l r hl hr adj same)
          | inr other ↦ unlike (Adjacent-of_tests l r e) other (unfold merge_found in rw (e, other))
        ]
      ]

  merge_found-IsValid :
      (l r : RangeDescriptor)
      → Holds c left l
      → Holds c right r
      → IsValid (merge_found c left right l r).0 × ((merge_found c left right l r).1 ≢ panicked)
  merge_found-IsValid l r hl hr = elim (merge_outcome l r hl hr) [
    | far t e ↦ rw e (v, λ p. cc)
    | unlike a t e ↦ rw e (v, λ p. cc)
    | joined a t e ↦ rw e (merged_state-IsValid v left right l r hl hr a, λ p. cc)
  ]

  merge_right-IsValid :
      (l : RangeDescriptor) (o : Option RangeDescriptor)
      → Holds c left l
      → Map.get right c.ranges ≡ o
      → IsValid (merge_right c left right l o).0 × ((merge_right c left right l o).1 ≢ panicked)
  merge_right-IsValid l none hl h = (v, λ p. cc)
  merge_right-IsValid l (some r) hl h = merge_found-IsValid l r hl h

  merge_left-IsValid :
      (o : Option RangeDescriptor)
      → Map.get left c.ranges ≡ o
      → IsValid (merge_left c left right o).0 × ((merge_left c left right o).1 ≢ panicked)
  merge_left-IsValid none h = (v, λ p. cc)
  merge_left-IsValid (some l) h = merge_right-IsValid l (Map.get right c.ranges) h refl

  -- A merge keeps a well-formed catalog well formed, and its `expect` never fails on one.
  pub merge_ranges-IsValid :
      IsValid (merge_ranges c left right).0 × ((merge_ranges c left right).1 ≢ panicked)
  unfolding merge_ranges
  merge_ranges-IsValid = merge_left-IsValid (Map.get left c.ranges) refl
