-- ===== src/Pd/Raft/Transfer.antt =====
-- A snapshot of the catalog that one node builds and another installs.
use aresadb.Prelude.{
  ◌≡◌, refl, sym, ap, ◌∙◌, Bool, true, false, ◌||◌, some, List, [], ◌∷◌, All, All-append, arith,
}
use aresadb.Ord.{eq?, eq?_refl}
use aresadb.Ord.Nat.{nat_ord}
use aresadb.Ord.Bytes.{Bytes, bytes_ord}
use aresadb.Map
use aresadb.Map.Sorted.{All-get}
use aresadb.Map.{BTreeMap, IsSorted}
use aresadb.Core.WriteBatch
use aresadb.Core.WriteBatch.{WriteBatch}
use aresadb.Core.WriteBatch.Op.{WriteOp}
use aresadb.Core.Memory.Batch.{InOrder}
use aresadb.Pd.Types.{RangeId, RangeDescriptor, NodeInfo}
use aresadb.Pd.Error
use aresadb.Pd.Catalog.State.{Catalog, ranges_at, iter_ranges_by_start}
use aresadb.Pd.Catalog.Valid.{IsValid}
use aresadb.Pd.Catalog.Load.Laws.{From, has_id}
use aresadb.Pd.StateMachine.{ok, Bincode, PdStateMachine, commit, put_node, put_meta}
use aresadb.Pd.Persist.{node_key, range_prefix, node_prefix, prefix_upper_bound}
use aresadb.Pd.StateMachine.Reopen.{range_rows, node_rows}
use aresadb.Pd.Catalog.Load.{load}
use aresadb.Pd.StateMachine.Recovery.{
  put_all_ranges, put_all_nodes, snapshot_batch, install_catalog_snapshot,
}
use aresadb.Pd.StateMachine.Progress.{
  IsTotal, Builds, put_range-Builds, put_meta-InOrder, commit_total,
}

-- The ids that an index has.
abbrev has : RangeId → List RangeId → Bool
has i [] = false
has i (j ∷ ids) = eq? j i || has i ids

-- Every entry of a sorted index is what a lookup finds, so its range is the catalog's.
abbrev Owned : Catalog → BTreeMap Bytes RangeId → Type 0
Owned c m =
    All (λ e. (d : RangeDescriptor) × (Map.get e.1 c.ranges ≡ some d) × (d.start_key ≡ e.0)) m

index-Owned :
    (c : Catalog) (m : BTreeMap Bytes RangeId)
    → IsValid c
    → All (λ e. Map.get e.0 c.by_start ≡ some e.1) m
    → Owned c m
index-Owned c [] v g = tt
index-Owned c ((s, i) ∷ m) v g = (v.owned s i g.0, index-Owned c m v g.1)

has_of_get :
    (s : Bytes) (i : RangeId) (m : BTreeMap Bytes RangeId)
    → Map.get s m ≡ some i
    → has i (Map.values m) ≡ true
unfolding Map.get Map.values
has_of_get s i [] g = cc
has_of_get s i ((r, j) ∷ m) g = ground (arith, has_of_get s i m, eq?_refl i)

ranges_at_lem :
    (c : Catalog) (m : BTreeMap Bytes RangeId)
    → IsValid c
    → Owned c m
    → (ds : List RangeDescriptor) × (ranges_at c.ranges (Map.values m) ≡ Error.ok ds)
      × From c ds
      × ((i : RangeId) → has_id i ds ≡ has i (Map.values m))
unfolding Map.values
ranges_at_lem c [] v o = ([], refl, tt, λ i. refl)
ranges_at_lem c ((s, i) ∷ m) v o =
    let (ds, e, from, same) = ranges_at_lem c m v o.1 in
    let (d, held, start) = o.0 in
    let own : d.range_id ≡ i = v.own_id i d held in
    (
      d ∷ ds,
      rw (held, e) refl,
      ((ap (λ x. Map.get x c.ranges) own ∙ held, v.indexed i d held ∙ ap some (sym own)), from),
      λ j. rw (same j) (ap (λ x. eq? x j || has j (Map.values m)) own),
    )

-- A well-formed catalog lists every range that it holds.
pub iter_ranges_by_start-From :
    (c : Catalog)
    → IsValid c
    → (ds : List RangeDescriptor) × (iter_ranges_by_start c ≡ Error.ok ds)
      × From c ds
      × ((i : RangeId) (d : RangeDescriptor) → Map.get i c.ranges ≡ some d → has_id i ds ≡ true)
unfolding iter_ranges_by_start
iter_ranges_by_start-From c v =
    let (ds, e, from, same) =
      ranges_at_lem c c.by_start v (index-Owned c c.by_start v (All-get c.by_start v.sorted)) in
    (ds, e, from, λ i d h. same i ∙ has_of_get d.start_key i c.by_start (v.indexed i d h))

module _ (b : Bincode) (total : IsTotal b) where
  put_all_ranges-Builds :
      (batch : WriteBatch) (ds : List RangeDescriptor)
      → All InOrder batch.ops
      → Builds (put_all_ranges b batch ds)
  put_all_ranges-Builds batch [] h = (batch, refl, h)
  put_all_ranges-Builds batch (d ∷ ds) h =
      let (first, e, o) = put_range-Builds b total batch d h in
      let (last, f, p) = put_all_ranges-Builds first ds o in (last, rw e f, p)

  put_node-Builds :
      (batch : WriteBatch) (n : NodeInfo) → All InOrder batch.ops → Builds (put_node b batch n)
  unfolding put_node WriteBatch.put WriteBatch.push
  put_node-Builds batch n h =
      let (v, e) = total.node_bytes n in
      (
        WriteBatch.put batch (node_key n.node_id) v,
        rw e refl,
        All-append InOrder batch.ops (WriteOp.put (node_key n.node_id) v ∷ []) h (tt, tt),
      )

  put_all_nodes-Builds :
      (batch : WriteBatch) (ns : List NodeInfo)
      → All InOrder batch.ops
      → Builds (put_all_nodes b batch ns)
  put_all_nodes-Builds batch [] h = (batch, refl, h)
  put_all_nodes-Builds batch (n ∷ ns) h =
      let (first, e, o) = put_node-Builds batch n h in
      let (last, f, p) = put_all_nodes-Builds first ns o in (last, rw e f, p)

  -- The deletes with which the batch of a snapshot begins.
  abbrev pub cleared : WriteBatch
  cleared = record {
    ops =
        WriteOp.delete_range range_prefix range_rows.end
        ∷ WriteOp.delete_range node_prefix node_rows.end
        ∷ [];
  }

  -- The batch of a snapshot: the deletes, the ranges, the nodes, and the row of the metadata.
  pub snapshot_batch_lem :
      (ds : List RangeDescriptor) (ns : List NodeInfo) (meta : Bytes)
      → (first : WriteBatch) × (last : WriteBatch) × (put_all_ranges b cleared ds ≡ ok first)
        × (put_all_nodes b first ns ≡ ok last)
        × All InOrder last.ops
        × (snapshot_batch b ds ns meta ≡ ok (put_meta (some meta) last))
  unfolding snapshot_batch prefix_upper_bound WriteBatch.delete_range WriteBatch.push
  snapshot_batch_lem ds ns meta =
      let (first, e, o) = put_all_ranges-Builds cleared ds (refl, (refl, tt)) in
      let (last, f, p) = put_all_nodes-Builds first ns o in (first, last, e, f, p, rw (e, f) refl)

  -- A snapshot installed on an open backend is written, and its catalog is loaded.
  pub install_catalog_snapshot_lem :
      (sm : PdStateMachine) (ds : List RangeDescriptor) (ns : List NodeInfo) (next : RangeId)
      (meta : Bytes)
      → sm.store.is_closed ≡ false
      → (first : WriteBatch) × (last : WriteBatch) × (put_all_ranges b cleared ds ≡ ok first)
        × (put_all_nodes b first ns ≡ ok last)
        × All InOrder last.ops
        × (install_catalog_snapshot b sm ds ns next meta ≡ (
          record {
            store = (commit sm.store (put_meta (some meta) last)).0;
            catalog = load ds ns next;
          },
          ok tt,
        ))
  unfolding install_catalog_snapshot
  install_catalog_snapshot_lem sm ds ns next meta o =
      let (first, last, e, f, p, built) = snapshot_batch_lem ds ns meta in
      let done =
        commit_total sm.store (put_meta (some meta) last) o (put_meta-InOrder (some meta) last p) in
      (first, last, e, f, p, rw (built, done) refl)
