-- ===== src/Pd/StateMachine/MetaRow.antt =====
-- The row of the Raft adapter on disk (crates/aresadb-pd/src/state_machine.rs).
use aresadb.Prelude.{◌≡◌, ap, ◌∙◌, false, some, [], ◌∷◌, All}
use aresadb.Ord.Bytes.{Bytes, bytes_ord}
use aresadb.Map
use aresadb.Core.WriteBatch
use aresadb.Core.WriteBatch.{WriteBatch}
use aresadb.Core.WriteBatch.Op.{WriteOp}
use aresadb.Core.Memory.{MemoryBackend}
use aresadb.Core.Memory.Batch.{View, InOrder, write_batch-view}
use aresadb.Core.Memory.Views.{view_ops-append}
use aresadb.Pd.Error.{Result}
use aresadb.Pd.Command.{PdCommand, PdResponse}
use aresadb.Pd.Catalog.Apply
use aresadb.Pd.Catalog.Valid.{IsValid}
use aresadb.Pd.Catalog.Invariant.{HasRoom}
use aresadb.Pd.Persist.{range_key, node_key}
use aresadb.Pd.StateMachine.{
  Applied, Bincode, PdStateMachine, commit, put_meta, pd_raft_meta_key, apply_inner,
  apply_meta_only,
}
use aresadb.Pd.StateMachine.Mirror.{Mirrors, eq?-pd_raft_meta_key}
use aresadb.Pd.StateMachine.Nodes.{MirrorsNodes, eq?-pd_raft_meta_key-node_key}
use aresadb.Pd.StateMachine.Progress.{IsTotal, built, commit_total, put_meta-InOrder}

-- A batch that ends with the row of the metadata, committed.
pub commit-row :
    (store : MemoryBackend) (batch : WriteBatch) (x : Bytes)
    → store.is_closed ≡ false
    → All InOrder batch.ops
    → let after = commit store (put_meta (some x) batch) in
      (after.1 ≡ Applied.ok tt)
      × (after.0.is_closed ≡ false)
      × (Map.get pd_raft_meta_key after.0.contents ≡ some x)
unfolding commit WriteBatch.put WriteBatch.push
commit-row store batch x o h =
    let full = put_meta (some x) batch in
    let (r, c, v) = write_batch-view store full o (put_meta-InOrder (some x) batch h) in
    (
      commit_total store full o (put_meta-InOrder (some x) batch h),
      c,
      v pd_raft_meta_key
          ∙ ap (λ (f : View). f pd_raft_meta_key)
              (view_ops-append batch.ops (WriteOp.put pd_raft_meta_key x ∷ [])
                (λ k. Map.get k store.contents)),
    )

-- The row of the metadata alone changes no row of a range.
pub apply_meta_only-Mirrors :
    (b : Bincode) (sm : PdStateMachine) (x : Bytes)
    → sm.store.is_closed ≡ false
    → Mirrors b sm.store.contents sm.catalog.ranges
    → Mirrors b (apply_meta_only sm x).0.store.contents sm.catalog.ranges
unfolding apply_meta_only commit WriteBatch.put WriteBatch.push
apply_meta_only-Mirrors b sm x o h j u =
    (write_batch-view sm.store (put_meta (some x) WriteBatch.new) o (tt, tt)).2 (range_key j)
    ∙ rw (eq?-pd_raft_meta_key j) (h j u)

-- Nor does it change one of a node.
pub apply_meta_only-MirrorsNodes :
    (b : Bincode) (sm : PdStateMachine) (x : Bytes)
    → sm.store.is_closed ≡ false
    → MirrorsNodes b sm.store.contents sm.catalog.nodes
    → MirrorsNodes b (apply_meta_only sm x).0.store.contents sm.catalog.nodes
unfolding apply_meta_only commit WriteBatch.put WriteBatch.push
apply_meta_only-MirrorsNodes b sm x o h j u =
    (write_batch-view sm.store (put_meta (some x) WriteBatch.new) o (tt, tt)).2 (node_key j)
    ∙ rw (eq?-pd_raft_meta_key-node_key j) (h j u)

module _ (b : Bincode) (total : IsTotal b) where
  -- A command that the catalog accepts writes the row of the metadata with its own rows.
  pub apply_inner-row :
      (sm : PdStateMachine) (cmd : PdCommand) (resp : PdResponse) (x : Bytes)
      → IsValid sm.catalog
      → HasRoom sm.catalog cmd
      → sm.store.is_closed ≡ false
      → (Apply.apply sm.catalog cmd).1 ≡ Result.ok resp
      → let after = (apply_inner b sm cmd (some x)).0 in
        (after.store.is_closed ≡ false) × (Map.get pd_raft_meta_key after.store.contents ≡ some x)
  unfolding apply_inner
  apply_inner-row sm cmd resp x v room o a =
      let (batch, e, q) = built b total sm.catalog cmd resp v room a in
      let (r, c, v) = commit-row sm.store batch x o q in rw (a, e) (c, v)
