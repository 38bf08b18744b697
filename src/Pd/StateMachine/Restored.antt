-- ===== src/Pd/StateMachine/Restored.antt =====
-- The catalog that opening makes of a backend, against the one that its rows mirror.
use aresadb.Prelude.{
  ◌≡◌, refl, sym, ap, ◌∙◌, true, Option, none, some, List, [], ◌∷◌, Option-cases, inl, inr, arith,
}
use aresadb.Ord.{eq?_iff, eq?_refl}
use aresadb.Ord.Nat.{nat_ord}
use aresadb.Ord.Bytes.{Bytes, bytes_ord}
use aresadb.Map
use aresadb.Map.Ext.{ext}
use aresadb.Map.Neighbours.{floor}
use aresadb.Pd.Types.{RangeId, RangeDescriptor, NodeInfo}
use aresadb.Pd.Catalog.State.{Catalog, get_range, find_range_for_key, candidate_at, if_contains}
use aresadb.Pd.Catalog.Valid.{IsValid}
use aresadb.Pd.Catalog.Load.{load}
use aresadb.Pd.Catalog.Load.Laws.{From, has_id, has_start, get-load, get-load_start}
use aresadb.Pd.StateMachine.{ok, Bincode, PdStateMachine}
use aresadb.Pd.StateMachine.Recovery.{open_store, rehydrate, max_id, past}
use aresadb.Pd.StateMachine.Mirror.{Mirrors}
use aresadb.Pd.StateMachine.Scanned.{CanOpen, ReadsBack, scan_ranges-From, scan_nodes_lem}

-- Two catalogs with the same ranges, and the same owner of every key.
abbrev pub SameRanges : Catalog → Catalog → Type 0
SameRanges c a =
    ((i : RangeId) → get_range a i ≡ get_range c i)
    × ((key : Bytes) → find_range_for_key a key ≡ find_range_for_key c key)

-- A descriptor's start is among the starts if its id is among the ids.
has_start_of_id :
    (c : Catalog) (ds : List RangeDescriptor) (i : RangeId) (d : RangeDescriptor)
    → From c ds
    → Map.get i c.ranges ≡ some d
    → has_id i ds ≡ true
    → has_start d.start_key ds ≡ true
has_start_of_id c [] i d from g h = h
has_start_of_id c (e ∷ ds) i d from g h =
    ground
      (arith, has_start_of_id c ds i d from.1 g, eq?_iff e.range_id i, from.0, eq?_refl d.start_key)

candidate_at-same :
    (c a : Catalog) (key : Bytes) (o : Option (Bytes × RangeId))
    → ((i : RangeId) → Map.get i a.ranges ≡ Map.get i c.ranges)
    → candidate_at a key o ≡ candidate_at c key o
candidate_at-same c a key none g = refl
candidate_at-same c a key (some (s, i)) g = ap (if_contains key) (g i)

module _ (c : Catalog) (ds : List RangeDescriptor) (ns : List NodeInfo) (hint : RangeId)
    (valid : IsValid c) (from : From c ds)
    (all : (i : RangeId) (d : RangeDescriptor)
      → Map.get i c.ranges ≡ some d
      → has_id i ds ≡ true) where
  loaded-ranges : (i : RangeId) → Map.get i (load ds ns hint).ranges ≡ Map.get i c.ranges
  loaded-ranges i = elim (Option-cases (Map.get i c.ranges)) [
    | inl e ↦ ground (arith, get-load c ds ns hint i from, e)
    | inr (d, e) ↦ ground (arith, get-load c ds ns hint i from, all i d e)
  ]

  loaded-by_start : (s : Bytes) → Map.get s (load ds ns hint).by_start ≡ Map.get s c.by_start
  loaded-by_start s = elim (Option-cases (Map.get s c.by_start)) [
    | inl e ↦ ground (arith, (get-load_start c ds ns hint s from).0, e)
    | inr (i, e) ↦
        let (d, held, start) = valid.owned s i e in
        let listed : has_start s ds ≡ true =
          ap (λ s. has_start s ds) (sym start)
          ∙ has_start_of_id c ds i d from held (all i d held) in
        (get-load_start c ds ns hint s from).0 ∙ rw listed refl
  ]

  pub loaded-SameRanges : SameRanges c (load ds ns hint)
  unfolding get_range find_range_for_key
  loaded-SameRanges =
      let a = load ds ns hint in
      let same : a.by_start ≡ c.by_start =
        ext a.by_start c.by_start (get-load_start c ds ns hint [] from).1 valid.sorted
          loaded-by_start in
      (
        loaded-ranges,
        λ key.
            ap (λ m. candidate_at a key (floor key m)) same
            ∙ candidate_at-same c a key (floor key c.by_start) loaded-ranges,
      )

-- Opening a backend whose rows mirror a well-formed catalog succeeds and gives a catalog with the
-- same ranges and the same owner of every key. The backend is open and sorted, its keys are bytes,
-- its node rows can be read, and bincode writes every range of the
-- catalog and reads back what it wrote.
pub open_store-restores :
    (b : Bincode) (sm : PdStateMachine)
    → IsValid sm.catalog
    → Mirrors b sm.store.contents sm.catalog.ranges
    → CanOpen b sm.store
    → ReadsBack b sm.catalog
    → (sm' : PdStateMachine) × (open_store b sm.store ≡ ok sm')
      × (sm'.store ≡ sm.store)
      × SameRanges sm.catalog sm'.catalog
unfolding open_store rehydrate
open_store-restores b sm valid mirrors can law =
    let (ds, read, from, all) = scan_ranges-From b sm.catalog law sm.store valid mirrors can in
    let (ns, nodes) = scan_nodes_lem b sm.store can in
    let hint = past (max_id none ds) in
    (
      record { store = sm.store; catalog = load ds ns hint },
      rw (read, nodes) refl,
      refl,
      loaded-SameRanges sm.catalog ds ns hint valid from all,
    )
