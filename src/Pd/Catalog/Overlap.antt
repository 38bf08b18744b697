-- ===== src/Pd/Catalog/Overlap.antt =====
-- `find_overlap` of crates/aresadb-pd/src/catalog.rs, against a search of all ranges.
use aresadb.Prelude.{
  ◌≡◌, refl, true, false, ◌||◌, Option, none, some, arith, Bool-cases, inl, inr, ◌⊎◌, Option-cases,
}
use aresadb.Ord.{lt?, le?-not-lt?}
use aresadb.Ord.Nat.{nat_ord}
use aresadb.Ord.Bytes.{Bytes, bytes_ord}
use aresadb.Span.{is_empty, in_span, lt?_of_le-lt}
use aresadb.Map
use aresadb.Map.{BTreeMap, IsSorted}
use aresadb.Map.Neighbours.{floor, above, floor_sound, above_sound, above-least, above_exists}
use aresadb.Pd.Types.{RangeId, RangeDescriptor, contains}
use aresadb.Pd.Error.{Result, ok}
use aresadb.Pd.Catalog.State.{Catalog, find_overlap, pred_conflict, suc_conflict}
use aresadb.Pd.Catalog.Valid.{IsValid, Holds}
use aresadb.Pd.Catalog.Lookup.{contains-start_key, contains-between, contains-le, floor_owner}

-- The range `i` shares a key with the span from `start` to `end`.
abbrev pub Overlaps : Catalog → RangeId → Bytes → Bytes → Type 0
Overlaps c i start end =
    (d : RangeDescriptor) × (key : Bytes) × (Map.get i c.ranges ≡ some d)
    × (contains d key ≡ true)
    × (in_span start end key ≡ true)

-- What `find_overlap` finds among the predecessors, and among the successors.
module _ {c : Catalog} (v : IsValid c) (start end : Bytes)
    (span : in_span start end start ≡ true) where
  data Pred (r : Result (Option RangeId)) : Type 0 where
    clash : (i : RangeId) → r ≡ ok (some i) → Overlaps c i start end → Pred r
    free :
        r ≡ ok none
        → ((i : RangeId) (d : RangeDescriptor) → Holds c i d → contains d start ≡ false)
        → Pred r

  free_before :
      (t : Bytes) (i : RangeId) (d : RangeDescriptor)
      → floor start c.by_start ≡ some (t, i)
      → Holds c i d
      → (is_empty d.end_key || lt? start d.end_key) ≡ false
      → (j : RangeId) (e : RangeDescriptor) → Holds c j e
      → contains e start ≡ false
  unfolding contains
  free_before t i d f h b j e g = elim (Bool-cases (contains e start)) [
    | inl k ↦ absurd (unfold contains in ground (arith, floor_owner v j e start g k))
    | inr k ↦ k
  ]

  Pred-at :
      (t : Bytes) (i : RangeId)
      → floor start c.by_start ≡ some (t, i)
      → Pred (pred_conflict c start (some (t, i)))
  Pred-at t i f =
      let at_t = floor_sound start t i c.by_start v.sorted f in
      let (d, holds, starts) = v.owned t i at_t.0 in
      elim (Bool-cases (is_empty d.end_key || lt? start d.end_key)) [
        | inl b ↦
            clash i (rw (holds, b))
              (d, start, holds, unfold contains in ground (arith, at_t.1, starts), span)
        | inr b ↦ free (rw (holds, b)) (free_before t i d f holds b)
      ]

  pred_lem : Pred (pred_conflict c start (floor start c.by_start))
  pred_lem = elim (Option-cases (floor start c.by_start)) [
    | inl e ↦ rw e (free refl (λ i d h. ground (arith, floor_owner v i d start h)))
    | inr (p, e) ↦ rw e (Pred-at p.0 p.1 e)
  ]

  data Suc (r : Option RangeId) : Type 0 where
    clash : (i : RangeId) → r ≡ some i → Overlaps c i start end → Suc r
    free :
        r ≡ none
        → ((i : RangeId) (d : RangeDescriptor)
            → Holds c i d
            → lt? start d.start_key ≡ true
            → in_span start end d.start_key ≡ false)
        → Suc r

  after_start :
      (t s : Bytes)
      → s ≡ t
      → lt? start t ≡ true
      → (is_empty end || lt? t end) ≡ true
      → in_span start end s ≡ true
  after_start t s same l b = rw same (ground arith)

  free_after :
      (j : RangeId) (e : RangeDescriptor) (t : Bytes) (i : RangeId)
      → above start c.by_start ≡ some (t, i)
      → Holds c j e
      → lt? start e.start_key ≡ true
      → (is_empty end || lt? t end) ≡ false
      → in_span start end e.start_key ≡ false
  free_after j e t i f h l b =
      let least = above-least start t e.start_key i j c.by_start v.sorted f (v.indexed j e h) l in
      ground (arith, lt?_of_le-lt t e.start_key end least)

  Suc-at :
      (t : Bytes) (i : RangeId)
      → above start c.by_start ≡ some (t, i)
      → Suc (suc_conflict end (some (t, i)))
  Suc-at t i f =
      let at_t = above_sound start t i c.by_start f in
      let (d, holds, starts) = v.owned t i at_t.0 in
      elim (Bool-cases (is_empty end || lt? t end)) [
        | inl b ↦ clash i (rw b) (
          d,
          d.start_key,
          holds,
          contains-start_key d (v.non_empty i d holds),
          after_start t d.start_key starts at_t.1 b,
        )
        | inr b ↦ free (rw b) (λ j e h l. free_after j e t i f h l b)
      ]

  suc_lem : Suc (suc_conflict end (above start c.by_start))
  suc_lem = elim (Option-cases (above start c.by_start)) [
    | inl e ↦ rw e (
        free refl
          (λ i d h l. absurd (above_exists start d.start_key i c.by_start (v.indexed i d h) l e)))
    | inr (p, e) ↦ rw e (Suc-at p.0 p.1 e)
  ]

  no_overlap :
      ((i : RangeId) (d : RangeDescriptor) → Holds c i d → contains d start ≡ false)
      → ((i : RangeId) (d : RangeDescriptor)
          → Holds c i d
          → lt? start d.start_key ≡ true
          → in_span start end d.start_key ≡ false)
      → (i : RangeId) (d : RangeDescriptor) (key : Bytes) → Holds c i d
      → contains d key ≡ true
      → in_span start end key ≡ false
  no_overlap p s i d key h k = ground (
    arith,
    p i d h,
    s i d h,
    contains-between d start key k,
    contains-le d key k,
    le?-not-lt? d.start_key start,
    lt?_of_le-lt d.start_key key end,
  )

  -- On a well-formed catalog `find_overlap` does not panic: for a span with a key it returns none
  -- if no range of the catalog shares a key with the span, and otherwise the id of one that does.
  pub find_overlap-exact :
      ((find_overlap c start end ≡ ok none)
        × ((i : RangeId) (d : RangeDescriptor) (key : Bytes)
            → Holds c i d
            → contains d key ≡ true
            → in_span start end key ≡ false))
      ⊎ ((i : RangeId) × (find_overlap c start end ≡ ok (some i)) × Overlaps c i start end)
  unfolding find_overlap
  find_overlap-exact = elim pred_lem [
    | clash i e o ↦ inr (i, rw e, o)
    | free e p ↦ elim suc_lem [
      | clash i f o ↦ inr (i, rw (e, f), o)
      | free f s ↦ inl (rw (e, f), no_overlap p s)
    ]
  ]
