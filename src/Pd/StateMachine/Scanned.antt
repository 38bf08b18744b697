-- ===== src/Pd/StateMachine/Scanned.antt =====
-- The ranges and nodes that opening scans, against a catalog that the rows mirror.
use aresadb.Prelude.{
  ℕ, ◌<◌, ◌≡◌, refl, sym, ap, ◌∙◌, subst, true, false, some, List, [], ◌∷◌, ◌++◌, All, All-append,
  Option-cases, inl, inr, arith,
}
use aresadb.Ord.Nat.{nat_ord}
use aresadb.Ord.Bytes.{Bytes, bytes_ord}
use aresadb.Map
use aresadb.Map.Sorted.{All-get}
use aresadb.Map.{BTreeMap, IsSorted}
use aresadb.BigEndian.{put_u64}
use aresadb.BigEndian.Laws.{put_u64-IsBytes}
use aresadb.Core.KeyRange.{contains}
use aresadb.Core.KeyRange.Prefix.{IsBytes}
use aresadb.Core.Memory
use aresadb.Core.Memory.{MemoryBackend, Data, KeyValue, key_values, collect_range}
use aresadb.Pd.Types.{RangeId, RangeDescriptor, NodeInfo, u64_mod}
use aresadb.Pd.Catalog.State.{Catalog}
use aresadb.Pd.Catalog.Valid.{IsValid}
use aresadb.Pd.StateMachine.Mirror.{Mirrors, row}
use aresadb.Pd.Catalog.Load.Laws.{From, has_id}
use aresadb.Pd.Persist.{range_key, range_prefix, range_id_from_key, prefix_upper_bound}
use aresadb.Pd.Persist.Keys.{range_id_from_key-exact, range_id_from_key-u64}
use aresadb.Pd.StateMachine.{ok, Bincode}
use aresadb.Pd.StateMachine.Recovery.{read_ranges, scan_ranges, scan_nodes}
use aresadb.Pd.StateMachine.Reopen.{
  RangeRow, NodeRow, All-key_values, has_row_of_get, read_ranges_lem, read_nodes_lem, range_rows,
  node_rows, contains-range_key,
}

-- What opening needs of a backend: it is open and sorted, its keys are bytes, and its node rows can
-- be read.
pub record CanOpen (b : Bincode) (store : MemoryBackend) : Type 0 where
  pub is_open : store.is_closed ≡ false
  pub is_sorted : IsSorted store.contents
  pub keys_are_bytes : All (λ e. IsBytes e.0) store.contents
  pub nodes_read : All (λ e. NodeRow b e.0 e.1) store.contents

-- bincode writes every range of the catalog and reads back what it wrote.
abbrev pub ReadsBack : Bincode → Catalog → Type 0
ReadsBack b c =
    (i : RangeId) (d : RangeDescriptor)
    → Map.get i c.ranges ≡ some d
    → (v : Bytes) × (b.serialize_range d ≡ some v) × (b.deserialize_range v ≡ some d)

range_prefix-IsBytes : IsBytes range_prefix
range_prefix-IsBytes = (
  omega arith,
  (
    omega arith,
    (omega arith, (omega arith, (omega arith, (omega arith, (omega arith, (omega arith, tt)))))),
  ),
)

-- A row key of a range has the range's id.
id_of_range_key : (i : ℕ) → i < u64_mod → range_id_from_key (range_key i) ≡ some i
id_of_range_key i u =
    let bytes : IsBytes (range_prefix ++ put_u64 i) =
      All-append (λ b. b < 256) range_prefix (put_u64 i) range_prefix-IsBytes (put_u64-IsBytes i) in
    (range_id_from_key-exact (range_key i) i (unfold range_key in bytes) u).1 refl

module _ (b : Bincode) where
  scan_ranges_lem :
      (store : MemoryBackend)
      → store.is_closed ≡ false
      → scan_ranges b store
        ≡ read_ranges b (key_values (Map.filter_keys (contains range_rows) store.contents))
  unfolding scan_ranges Memory.scan Memory.ensure_open collect_range prefix_upper_bound
  scan_ranges_lem store o = rw o refl

  pub scan_nodes_lem :
      (store : MemoryBackend)
      → CanOpen b store
      → (ns : List NodeInfo) × (scan_nodes b store ≡ ok ns)
  unfolding scan_nodes Memory.scan Memory.ensure_open collect_range prefix_upper_bound
  scan_nodes_lem store can =
      let p = contains node_rows in
      let (ns, e) =
        read_nodes_lem b (key_values (Map.filter_keys p store.contents))
          (All-key_values (NodeRow b) p store.contents can.nodes_read) in
      (ns, rw can.is_open e)

module _ (b : Bincode) (c : Catalog) (law : ReadsBack b c) where
  entry-RangeRow :
      (store : MemoryBackend) (key value : Bytes)
      → IsValid c
      → Mirrors b store.contents c.ranges
      → IsBytes key
      → Map.get key store.contents ≡ some value
      → RangeRow b c key value
  entry-RangeRow store key value v mirrors bytes g i id =
      let u = range_id_from_key-u64 key i bytes id in
      let here : key ≡ range_key i = (range_id_from_key-exact key i bytes u).0 id in
      let row_ : row b (Map.get i c.ranges) ≡ some value =
        sym (mirrors i u) ∙ subst (λ k. Map.get k store.contents ≡ some value) here g in
      elim (Option-cases (Map.get i c.ranges)) [
        | inl e ↦ absurd (ground (arith, row_, e))
        | inr (d, e) ↦
            let (x, s, r) = law i d e in
            (d, ground (arith, row_, e, s, r), v.own_id i d e, e, v.indexed i d e)
      ]

  entries-RangeRow :
      (store : MemoryBackend) (m : Data)
      → IsValid c
      → Mirrors b store.contents c.ranges
      → All (λ e. IsBytes e.0) m
      → All (λ e. Map.get e.0 store.contents ≡ some e.1) m
      → All (λ e. RangeRow b c e.0 e.1) m
  entries-RangeRow store [] v mirrors bytes g = tt
  entries-RangeRow store ((k, x) ∷ m) v mirrors bytes g = (
    entry-RangeRow store k x v mirrors bytes.0 g.0,
    entries-RangeRow store m v mirrors bytes.1 g.1,
  )

  -- The ranges that a scan reads are the catalog's, every one of them.
  pub scan_ranges-From :
      (store : MemoryBackend)
      → IsValid c
      → Mirrors b store.contents c.ranges
      → CanOpen b store
      → (ds : List RangeDescriptor) × (scan_ranges b store ≡ ok ds)
        × From c ds
        × ((i : RangeId) (d : RangeDescriptor) → Map.get i c.ranges ≡ some d → has_id i ds ≡ true)
  scan_ranges-From store v mirrors can =
      let p = contains range_rows in
      let rows = All-key_values (RangeRow b c) p store.contents (
        entries-RangeRow store store.contents v mirrors can.keys_are_bytes
          (All-get store.contents can.is_sorted)) in
      let (ds, e, from, same) =
        read_ranges_lem b c (key_values (Map.filter_keys p store.contents)) rows in
      (
        ds,
        scan_ranges_lem b store can.is_open ∙ e,
        from,
        λ i d h.
            let (x, s, r) = law i d h in
            let u : i < u64_mod = omega (arith, v.below i d h, v.fits) in
            let found : Map.get (range_key i) store.contents ≡ some x =
              mirrors i u ∙ ap (row b) h ∙ s in
            same i
            ∙ has_row_of_get i (range_key i) x p store.contents found (contains-range_key i)
                (id_of_range_key i u),
      )
