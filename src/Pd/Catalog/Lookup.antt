-- ===== src/Pd/Catalog/Lookup.antt =====
-- `find_range_for_key` and `find_overlap` of crates/aresadb-pd/src/catalog.rs look at the
-- neighbours in the index only; on a well-formed catalog they find what a search of all ranges
-- would.
use aresadb.Prelude.{◌≡◌, ◌∙◌, ◌↔◌, true, Option, none, some, arith, inl, inr, Option-cases}
use mathlib.Core.Path.{ap₂, subst}
use aresadb.Ord.{le?}
use aresadb.Ord.Nat.{nat_ord}
use aresadb.Ord.Bytes.{Bytes, bytes_ord}
use aresadb.Span.{lt?_of_le-lt}
use aresadb.Map
use aresadb.Map.{BTreeMap, IsSorted}
use aresadb.Map.Neighbours.{floor, floor_sound, floor-greatest, floor_exists}
use aresadb.Pd.Types.{RangeId, RangeDescriptor, contains, has_non_empty_span}
use aresadb.Pd.Catalog.State.{Catalog, find_range_for_key, candidate_at, if_contains}
use aresadb.Pd.Catalog.Valid.{IsValid, Holds}

-- A range with a key holds its start.
pub contains-start_key :
    (d : RangeDescriptor) → has_non_empty_span d ≡ true → contains d d.start_key ≡ true
unfolding contains has_non_empty_span
contains-start_key d h = ground (arith, bytes_ord.cmp_refl d.start_key)

-- It holds what lies between its start and a key that it holds.
pub contains-between :
    (d : RangeDescriptor) (t key : Bytes)
    → contains d key ≡ true
    → le? d.start_key t ≡ true
    → le? t key ≡ true
    → contains d t ≡ true
unfolding contains
contains-between d t key h s l = ground (arith, lt?_of_le-lt t key d.end_key)

pub contains-le :
    (d : RangeDescriptor) (key : Bytes) → contains d key ≡ true → le? d.start_key key ≡ true
unfolding contains
contains-le d key h = ground arith

module _ {c : Catalog} (v : IsValid c) where
  -- Two ranges that share a key are one.
  pub one_owner :
      (i j : RangeId) (d e : RangeDescriptor) (key : Bytes)
      → Holds c i d
      → Holds c j e
      → contains d key ≡ true
      → contains e key ≡ true
      → (i ≡ j) × (d ≡ e)
  one_owner i j d e key h g k l = let same = v.disjoint i j d e key h g k l in (same, ground arith)

  floor_owner_step :
      (i j : RangeId) (d : RangeDescriptor) (key t : Bytes)
      → Holds c i d
      → contains d key ≡ true
      → floor key c.by_start ≡ some (t, j)
      → (t ≡ d.start_key) × (j ≡ i)
  floor_owner_step i j d key t h k f =
      let at_t = floor_sound key t j c.by_start v.sorted f in
      let (e, holds, starts) = v.owned t j at_t.0 in
      let later =
        floor-greatest key t d.start_key j i c.by_start v.sorted f (v.indexed i d h)
          (contains-le d key k) in
      let e_has : contains e t ≡ true =
        subst (λ x. contains e x ≡ true) starts (contains-start_key e (v.non_empty j e holds)) in
      let one = one_owner j i e d t holds h e_has (contains-between d t key k later at_t.1) in
      (cc (starts, one.1), one.0)

  -- The range that holds a key is the one that starts last at or before the key.
  pub floor_owner :
      (i : RangeId) (d : RangeDescriptor) (key : Bytes)
      → Holds c i d
      → contains d key ≡ true
      → floor key c.by_start ≡ some (d.start_key, i)
  floor_owner i d key h k = elim (Option-cases (floor key c.by_start)) [
    | inl e ↦
        absurd (floor_exists key d.start_key i c.by_start (v.indexed i d h) (contains-le d key k) e)
    | inr (p, e) ↦
        let (same_start, same_id) = floor_owner_step i p.1 d key p.0 h k e in
        e ∙ ap₂ (λ (s : Bytes) (j : RangeId). some (s, j)) same_start same_id
  ]

  find_range_complete :
      (i : RangeId) (d : RangeDescriptor) (key : Bytes)
      → Holds c i d
      → contains d key ≡ true
      → find_range_for_key c key ≡ some d
  unfolding find_range_for_key
  find_range_complete i d key h k = rw (floor_owner i d key h k) (rw h (rw k))

  if_contains_sound :
      (key : Bytes) (o : Option RangeDescriptor) (d : RangeDescriptor)
      → if_contains key o ≡ some d
      → (o ≡ some d) × (contains d key ≡ true)
  if_contains_sound key none d h = ground arith
  if_contains_sound key (some e) d h = ground arith

  candidate_at_sound :
      (key : Bytes) (o : Option (Bytes × RangeId)) (d : RangeDescriptor)
      → candidate_at c key o ≡ some d
      → (i : RangeId) × (Map.get i c.ranges ≡ some d) × (contains d key ≡ true)
  candidate_at_sound key none d h = cc
  candidate_at_sound key (some (t, i)) d h =
      let r = if_contains_sound key (Map.get i c.ranges) d h in (i, r.0, r.1)

  -- On a well-formed catalog `find_range_for_key` returns a range exactly when the catalog holds that
  -- range and the key lies in it.
  pub find_range_for_key-exact :
      (key : Bytes) (d : RangeDescriptor)
      → (find_range_for_key c key ≡ some d)
        ↔ ((i : RangeId) × (Map.get i c.ranges ≡ some d) × (contains d key ≡ true))
  unfolding find_range_for_key
  find_range_for_key-exact key d = (
    λ h. candidate_at_sound key (floor key c.by_start) d h,
    λ h. find_range_complete h.0 d key h.1 h.2,
  )
