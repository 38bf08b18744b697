-- ===== src/Pd/Raft/Written.antt =====
-- The rows that an installed snapshot leaves on disk.
use aresadb.Prelude.{◌<◌, ◌≡◌, refl, ◌∙◌, false, some, List, [], ◌∷◌, All, arith}
use aresadb.Ord.Nat.{nat_ord}
use aresadb.Ord.Bytes.{Bytes, bytes_ord}
use aresadb.Map
use aresadb.Map.{BTreeMap}
use aresadb.Map.Laws.{get-insert}
use aresadb.Core.WriteBatch
use aresadb.Core.WriteBatch.{WriteBatch}
use aresadb.Core.WriteBatch.Op.{put}
use aresadb.Core.Memory.Batch.{View, view_ops, write_batch-view}
use aresadb.Core.Memory.Views.{view_ops-append}
use aresadb.Pd.Types.{RangeId, NodeId, NodeInfo, RangeDescriptor, u64_mod}
use aresadb.Pd.Catalog.State.{Catalog, new}
use aresadb.Pd.Catalog.Load.{load, load_range, load_ranges, load_nodes}
use aresadb.Pd.Persist.{range_key, node_key}
use aresadb.Pd.StateMachine.{
  ok, Bincode, PdStateMachine, commit, put_range, put_node, put_meta, pd_raft_meta_key,
}
use aresadb.Pd.StateMachine.Recovery.{put_all_ranges, put_all_nodes, install_catalog_snapshot}
use aresadb.Pd.StateMachine.Mirror.{Mirrors, row, eq?-range_key, eq?-node_key, eq?-pd_raft_meta_key}
use aresadb.Pd.StateMachine.Nodes
use aresadb.Pd.StateMachine.Nodes.{
  MirrorsNodes, node_row, eq?-range_key-node_key, eq?-pd_raft_meta_key-node_key,
}
use aresadb.Pd.StateMachine.Rows.{bind_ok, put_range-ops, put_node-ops}
use aresadb.Pd.StateMachine.Progress.{IsTotal, put_meta-InOrder}
use aresadb.Pd.StateMachine.MetaRow.{commit-row}
use aresadb.Pd.Raft.Transfer.{cleared, install_catalog_snapshot_lem}

-- The ids of ranges and of nodes that fit a `u64`.
abbrev pub RangesFit : List RangeDescriptor → Type 0
RangesFit ds = All (λ d. d.range_id < u64_mod) ds

abbrev pub NodesFit : List NodeInfo → Type 0
NodesFit ns = All (λ n. n.node_id < u64_mod) ns

module _ (b : Bincode) where
  -- A view has the rows of the ranges and the nodes of a catalog.
  abbrev Rows : View → Catalog → Type 0
  Rows f c =
      ((i : RangeId) → i < u64_mod → f (range_key i) ≡ row b (Map.get i c.ranges))
      × ((i : NodeId) → i < u64_mod → f (node_key i) ≡ node_row b (Map.get i c.nodes))

  put_range-Rows :
      (batch out : WriteBatch) (d : RangeDescriptor) (f : View) (c : Catalog)
      → put_range b batch d ≡ ok out
      → d.range_id < u64_mod
      → Rows (view_ops batch.ops f) c
      → Rows (view_ops out.ops f) (load_range c d)
  put_range-Rows batch out d f c h u rows =
      let (v, s, e) = put_range-ops b batch out d h in
      rw (e, view_ops-append batch.ops (put (range_key d.range_id) v ∷ []) f)
        (
          λ j w. ground (
            arith,
            get-insert d.range_id j d c.ranges,
            eq?-range_key d.range_id j u w,
            rows.0 j w,
            s,
          ),
          λ j w. rw (eq?-range_key-node_key d.range_id j) (rows.1 j w),
        )

  put_all_ranges-Rows :
      (batch out : WriteBatch) (ds : List RangeDescriptor) (f : View) (c : Catalog)
      → put_all_ranges b batch ds ≡ ok out
      → RangesFit ds
      → Rows (view_ops batch.ops f) c
      → Rows (view_ops out.ops f) (load_ranges c ds)
  put_all_ranges-Rows batch out [] f c h u rows =
      let same : batch ≡ out = ground arith in rw (← same) rows
  put_all_ranges-Rows batch out (d ∷ ds) f c h u rows =
      let (next, e, rest) = bind_ok (put_range b batch d) _ out h in
      put_all_ranges-Rows next out ds f (load_range c d) rest u.1
        (put_range-Rows batch next d f c e u.0 rows)

  put_node-Rows :
      (batch out : WriteBatch) (n : NodeInfo) (f : View) (c : Catalog)
      → put_node b batch n ≡ ok out
      → n.node_id < u64_mod
      → Rows (view_ops batch.ops f) c
      → Rows (view_ops out.ops f) (record c { nodes = Map.insert n.node_id n c.nodes })
  put_node-Rows batch out n f c h u rows =
      let (v, s, e) = put_node-ops b batch out n h in
      rw (e, view_ops-append batch.ops (put (node_key n.node_id) v ∷ []) f)
        (
          λ j w. rw (eq?-node_key n.node_id j) (rows.0 j w),
          λ j w. ground (
            arith,
            get-insert n.node_id j n c.nodes,
            Nodes.eq?-node_key n.node_id j u w,
            rows.1 j w,
            s,
          ),
        )

  put_all_nodes-Rows :
      (batch out : WriteBatch) (ns : List NodeInfo) (f : View) (c : Catalog)
      → put_all_nodes b batch ns ≡ ok out
      → NodesFit ns
      → Rows (view_ops batch.ops f) c
      → Rows (view_ops out.ops f) (load_nodes c ns)
  put_all_nodes-Rows batch out [] f c h u rows =
      let same : batch ≡ out = ground arith in rw (← same) rows
  put_all_nodes-Rows batch out (n ∷ ns) f c h u rows =
      let (next, e, rest) = bind_ok (put_node b batch n) _ out h in
      put_all_nodes-Rows next out ns f (record c { nodes = Map.insert n.node_id n c.nodes }) rest
        u.1 (put_node-Rows batch next n f c e u.0 rows)

  -- The deletes leave no row of a range or of a node.
  cleared-Rows : (total : IsTotal b) (f : View) → Rows (view_ops (cleared b total).ops f) new
  unfolding range_key node_key Map.get
  cleared-Rows total f = (λ i u. refl, λ i u. refl)

  -- A snapshot installed on an open backend leaves the rows of the catalog that it loads, those of
  -- ranges and of nodes, and the row of the metadata.
  pub install_catalog_snapshot-written :
      (total : IsTotal b) (sm : PdStateMachine) (ds : List RangeDescriptor) (ns : List NodeInfo)
      (next : RangeId) (meta : Bytes)
      → sm.store.is_closed ≡ false
      → RangesFit ds
      → NodesFit ns
      → let u = install_catalog_snapshot b sm ds ns next meta in
        (u.1 ≡ ok tt)
        × (u.0.catalog ≡ load ds ns next)
        × (u.0.store.is_closed ≡ false)
        × Mirrors b u.0.store.contents (load ds ns next).ranges
        × MirrorsNodes b u.0.store.contents (load ds ns next).nodes
        × (Map.get pd_raft_meta_key u.0.store.contents ≡ some meta)
  unfolding commit load WriteBatch.put WriteBatch.push
  install_catalog_snapshot-written total sm ds ns next meta o fit_ds fit_ns =
      let (first, last, e, g, order, done) =
        install_catalog_snapshot_lem b total sm ds ns next meta o in
      let full = put_meta (some meta) last in
      let (r, opened, view) =
        write_batch-view sm.store full o (put_meta-InOrder (some meta) last order) in
      let f : View = λ k. Map.get k sm.store.contents in
      let rows =
        put_all_nodes-Rows first last ns f (load_ranges new ds) g fit_ns
          (put_all_ranges-Rows (cleared b total) first ds f new e fit_ds (cleared-Rows total f)) in
      let appended = view_ops-append last.ops (put pd_raft_meta_key meta ∷ []) f in
      rw done (
        refl,
        refl,
        opened,
        λ i u. view (range_key i) ∙ rw (appended, eq?-pd_raft_meta_key i) (rows.0 i u),
        λ i u. view (node_key i) ∙ rw (appended, eq?-pd_raft_meta_key-node_key i) (rows.1 i u),
        (commit-row sm.store last meta o order).2,
      )
