-- ===== src/Pd/Catalog/Split.antt =====
-- `split_range` of crates/aresadb-pd/src/catalog.rs: it keeps a catalog well formed, and every key
-- of the parent has an owner afterwards.
use aresadb.Prelude.{
  ◌+◌, ◌<◌, ◌≡◌, ◌≢◌, refl, true, false, not, ◌&&◌, Option, none, some, [], ◌∷◌, if◌then◌else◌,
  arith, Bool-cases, inl, inr, ◌⊎◌, ◌==◌,
}
use mathlib.Core.Path.{subst}
use aresadb.Ord.{lt?, eq?, eq?_iff, le?-not-lt?, lt?_irrefl}
use aresadb.Ord.Nat.{nat_ord}
use aresadb.Ord.Bytes.{Bytes, bytes_ord}
use aresadb.Span.{is_empty, in_span-left, in_span-right}
use aresadb.Map
use aresadb.Map.{IsSorted}
use aresadb.Map.Laws.{get-insert}
use aresadb.Map.Sorted.{insert-IsSorted}
use aresadb.Pd.Types.{RangeId, RangeDescriptor, contains, has_non_empty_span, u64_mod}
use aresadb.Pd.Catalog.State.{Catalog}
use aresadb.Pd.Catalog.Apply.{split_range, split_found, split_state, split_rhs, split_lhs, inside}
use aresadb.Pd.Catalog.Valid.{IsValid, Holds}
use aresadb.Pd.Catalog.Lookup.{contains-start_key}

key_non_empty : (a b : Bytes) → lt? a b ≡ true → is_empty b ≡ false
key_non_empty [] [] h = ground arith
key_non_empty (x ∷ a) [] h = ground arith
key_non_empty a (y ∷ b) h = refl

-- The two parts of a parent share out its keys.
module _ (c : Catalog) (parent : RangeDescriptor) (split_key : Bytes)
    (ins : inside parent split_key ≡ true) where
  pub contains-split_lhs :
      (key : Bytes)
      → contains (split_lhs parent split_key) key ≡ (contains parent key && lt? key split_key)
  unfolding contains
  contains-split_lhs key = ground (
    arith,
    in_span-left parent.start_key split_key parent.end_key key,
    in_span-right parent.start_key split_key parent.end_key key,
    key_non_empty parent.start_key split_key,
  )

  pub contains-split_rhs :
      (key : Bytes)
      → contains (split_rhs c parent split_key) key
        ≡ (contains parent key && not (lt? key split_key))
  unfolding contains
  contains-split_rhs key = ground (
    arith,
    in_span-left parent.start_key split_key parent.end_key key,
    in_span-right parent.start_key split_key parent.end_key key,
    key_non_empty parent.start_key split_key,
  )

  contains-inside : contains parent split_key ≡ true
  unfolding contains
  contains-inside = ground (
    arith,
    bytes_ord.gt_of_lt parent.start_key split_key,
    le?-not-lt? parent.start_key split_key,
    bytes_ord.gt_of_lt split_key parent.start_key,
  )

  split_lhs-non_empty : has_non_empty_span (split_lhs parent split_key) ≡ true
  unfolding has_non_empty_span
  split_lhs-non_empty = ground (arith, key_non_empty parent.start_key split_key)

  split_rhs-non_empty : has_non_empty_span (split_rhs c parent split_key) ≡ true
  unfolding has_non_empty_span
  split_rhs-non_empty = ground arith

module _ {c : Catalog} (v : IsValid c) (p : RangeId) (parent : RangeDescriptor) (split_key : Bytes)
    (hp : Holds c p parent) (ins : inside parent split_key ≡ true)
    (room : c.next_range_id + 1 < u64_mod) where
  pub get-split :
      (i : RangeId)
      → Map.get i (split_state c p parent split_key).ranges ≡ (
          if c.next_range_id == i
          then some (split_rhs c parent split_key)
          else if p == i
          then some (split_lhs parent split_key)
          else Map.get i c.ranges)
  unfolding split_state
  get-split i = ground (
    arith,
    get-insert c.next_range_id i (split_rhs c parent split_key)
        (Map.insert p (split_lhs parent split_key) c.ranges),
    get-insert p i (split_lhs parent split_key) c.ranges,
  )

  Holds-split :
      (i : RangeId) (d : RangeDescriptor)
      → Holds (split_state c p parent split_key) i d
      → ((c.next_range_id ≡ i) × (split_rhs c parent split_key ≡ d))
        ⊎ (((p ≡ i) × (split_lhs parent split_key ≡ d)) ⊎ ((p ≢ i) × Holds c i d))
  Holds-split i d h = ground (arith, get-split i)

  split_key_unused : (i : RangeId) → Map.get split_key c.by_start ≢ some i
  split_key_unused i h =
      let (d, holds, starts) = v.owned split_key i h in
      let same =
        v.disjoint i p d parent split_key holds hp
          (subst (λ s. contains d s ≡ true) starts (contains-start_key d (v.non_empty i d holds)))
          (contains-inside c parent split_key ins) in
      ground (arith, lt?_irrefl split_key)

  split-disjoint :
      (i j : RangeId) (d e : RangeDescriptor) (key : Bytes)
      → Holds (split_state c p parent split_key) i d
      → Holds (split_state c p parent split_key) j e
      → contains d key ≡ true
      → contains e key ≡ true
      → i ≡ j
  split-disjoint i j d e key h g k l = ground (
    arith,
    Holds-split i d h,
    Holds-split j e g,
    contains-split_lhs c parent split_key ins key,
    contains-split_rhs c parent split_key ins key,
    v.disjoint i j d e key,
    v.disjoint p j parent e key hp,
    v.disjoint i p d parent key,
  )

  indexed-split :
      (i : RangeId) (d : RangeDescriptor)
      → Holds (split_state c p parent split_key) i d
      → Map.get d.start_key (split_state c p parent split_key).by_start ≡ some i
  indexed-split i d h =
      unfold split_state in
      ground (
        arith,
        Holds-split i d h,
        v.indexed i d,
        v.indexed p parent hp,
        get-insert split_key d.start_key c.next_range_id c.by_start,
        eq?_iff split_key d.start_key,
        split_key_unused i,
        split_key_unused p,
      )

  owned-split :
      (s : Bytes) (i : RangeId)
      → Map.get s (split_state c p parent split_key).by_start ≡ some i
      → (d : RangeDescriptor) × (Map.get i (split_state c p parent split_key).ranges ≡ some d)
        × (d.start_key ≡ s)
  owned-split s i h = elim (Bool-cases (eq? split_key s)) [
    | inl e ↦ (
      split_rhs c parent split_key,
      ground (arith, start_lookup, get-split i),
      (eq?_iff split_key s).0 e,
    )
    | inr e ↦
        let old : Map.get s c.by_start ≡ some i = ground (arith, start_lookup) in
        let (d, holds, starts) = v.owned s i old in
        elim (Bool-cases (p == i)) [
          | inl same ↦ (
            split_lhs parent split_key,
            ground (arith, get-split i, v.below p parent hp),
            ground (arith, starts),
          )
          | inr other ↦ (d, ground (arith, get-split i, v.below i d holds), starts)
        ]
  ]
    where
      start_lookup :
          Map.get s (split_state c p parent split_key).by_start
          ≡ (if eq? split_key s then some c.next_range_id else Map.get s c.by_start)
      start_lookup = unfold split_state in get-insert split_key s c.next_range_id c.by_start

  pub split_state-IsValid : IsValid (split_state c p parent split_key)
  split_state-IsValid = record {
    own_id = λ i d h. ground (arith, Holds-split i d h, v.own_id i d, v.own_id p parent hp);
    non_empty = λ i d h. ground (
      arith,
      Holds-split i d h,
      v.non_empty i d,
      split_lhs-non_empty c parent split_key ins,
      split_rhs-non_empty c parent split_key ins,
    );
    disjoint = split-disjoint;
    indexed = indexed-split;
    owned = owned-split;
    below = λ i d h.
        unfold split_state in ground (arith, Holds-split i d h, v.below i d, v.below p parent hp);
    fits = unfold split_state in ground (arith, v.fits);
    sorted = unfold split_state in insert-IsSorted split_key c.next_range_id c.by_start v.sorted;
  }

split_found-IsValid :
    (c : Catalog) (p : RangeId) (split_key : Bytes) (o : Option RangeDescriptor)
    → IsValid c
    → c.next_range_id + 1 < u64_mod
    → Map.get p c.ranges ≡ o
    → IsValid (split_found c p split_key o).0
split_found-IsValid c p split_key none v room h = v
split_found-IsValid c p split_key (some parent) v room h =
    elim (Bool-cases (inside parent split_key)) [
      | inl e ↦ rw e (split_state-IsValid v p parent split_key h e room)
      | inr e ↦ rw e v
    ]

pub split_range-IsValid :
    (c : Catalog) (p : RangeId) (split_key : Bytes)
    → IsValid c
    → c.next_range_id + 1 < u64_mod
    → IsValid (split_range c p split_key).0
unfolding split_range
split_range-IsValid c p split_key v room =
    split_found-IsValid c p split_key (Map.get p c.ranges) v room refl
