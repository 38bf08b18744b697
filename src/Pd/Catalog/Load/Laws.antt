-- ===== src/Pd/Catalog/Load/Laws.antt =====
-- What a catalog loaded from descriptors of another has of the other's ranges.
use aresadb.Prelude.{
  ◌≡◌, refl, ap, ◌∙◌, Bool, false, ◌||◌, none, some, List, [], ◌∷◌, All, if◌then◌else◌, arith,
}
use aresadb.Ord.{eq?, eq?_iff}
use aresadb.Ord.Nat.{nat_ord}
use aresadb.Ord.Bytes.{Bytes, bytes_ord}
use aresadb.Map
use aresadb.Map.{BTreeMap, IsSorted}
use aresadb.Map.Laws.{get-insert}
use aresadb.Map.Sorted.{insert-IsSorted}
use aresadb.Pd.Types.{RangeId, RangeDescriptor, NodeInfo}
use aresadb.Pd.Catalog.State.{Catalog, new}
use aresadb.Pd.Catalog.Load.{load, load_range, load_ranges, load_nodes}

abbrev pub has_id : RangeId → List RangeDescriptor → Bool
has_id i [] = false
has_id i (d ∷ ds) = eq? d.range_id i || has_id i ds

abbrev pub has_start : Bytes → List RangeDescriptor → Bool
has_start s [] = false
has_start s (d ∷ ds) = eq? d.start_key s || has_start s ds

-- Descriptors that a catalog holds under their own ids, and indexes by their start keys.
abbrev pub From : Catalog → List RangeDescriptor → Type 0
From c ds =
    All
      (λ d.
        (Map.get d.range_id c.ranges ≡ some d) × (Map.get d.start_key c.by_start ≡ some d.range_id))
      ds

load_ranges-ranges :
    (c a : Catalog) (ds : List RangeDescriptor) (i : RangeId)
    → From c ds
    → Map.get i (load_ranges a ds).ranges
      ≡ (if has_id i ds then Map.get i c.ranges else Map.get i a.ranges)
load_ranges-ranges c a [] i h = refl
load_ranges-ranges c a (d ∷ ds) i h = ground (
  arith,
  load_ranges-ranges c (load_range a d) ds i h.1,
  get-insert d.range_id i d a.ranges,
  h.0,
  eq?_iff d.range_id i,
)

load_ranges-by_start :
    (c a : Catalog) (ds : List RangeDescriptor) (s : Bytes)
    → From c ds
    → Map.get s (load_ranges a ds).by_start
      ≡ (if has_start s ds then Map.get s c.by_start else Map.get s a.by_start)
load_ranges-by_start c a [] s h = refl
load_ranges-by_start c a (d ∷ ds) s h = ground (
  arith,
  load_ranges-by_start c (load_range a d) ds s h.1,
  get-insert d.start_key s d.range_id a.by_start,
  h.0,
  eq?_iff d.start_key s,
)

load_ranges-IsSorted :
    (a : Catalog) (ds : List RangeDescriptor)
    → IsSorted a.by_start
    → IsSorted (load_ranges a ds).by_start
load_ranges-IsSorted a [] s = s
load_ranges-IsSorted a (d ∷ ds) s =
    load_ranges-IsSorted (load_range a d) ds (insert-IsSorted d.start_key d.range_id a.by_start s)

load_nodes-same :
    (a : Catalog) (ns : List NodeInfo)
    → ((load_nodes a ns).ranges ≡ a.ranges) × ((load_nodes a ns).by_start ≡ a.by_start)
load_nodes-same a [] = (refl, refl)
load_nodes-same a (n ∷ ns) =
    load_nodes-same (record a { nodes = Map.insert n.node_id n a.nodes }) ns

pub get-load :
    (c : Catalog) (ds : List RangeDescriptor) (ns : List NodeInfo) (hint i : RangeId)
    → From c ds
    → Map.get i (load ds ns hint).ranges ≡ (if has_id i ds then Map.get i c.ranges else none)
unfolding load Map.get
get-load c ds ns hint i h =
    ap (λ m. Map.get i m) (load_nodes-same (load_ranges new ds) ns).0
    ∙ load_ranges-ranges c new ds i h

pub get-load_start :
    (c : Catalog) (ds : List RangeDescriptor) (ns : List NodeInfo) (hint : RangeId) (s : Bytes)
    → From c ds
    → (Map.get s (load ds ns hint).by_start
        ≡ (if has_start s ds then Map.get s c.by_start else none))
      × IsSorted (load ds ns hint).by_start
unfolding load Map.get
get-load_start c ds ns hint s h =
    let same = (load_nodes-same (load_ranges new ds) ns).1 in
    (
      ap (λ m. Map.get s m) same ∙ load_ranges-by_start c new ds s h,
      rw same (load_ranges-IsSorted new ds tt),
    )
