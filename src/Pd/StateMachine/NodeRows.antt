-- ===== src/Pd/StateMachine/NodeRows.antt =====
-- The rows of nodes that each accepted command writes (crates/aresadb-pd/src/state_machine.rs).
use aresadb.Prelude.{
  ℕ, max, ◌<◌, ◌≡◌, refl, sym, ap, ◌∙◌, subst, Option, none, some, [], ◌∷◌, All, All-append, arith,
}
use aresadb.Ord.Nat.{nat_ord}
use aresadb.Ord.Bytes.{bytes_ord}
use aresadb.Map
use aresadb.Map.{BTreeMap}
use aresadb.Map.Laws.{get-insert}
use aresadb.Core.WriteBatch
use aresadb.Core.WriteBatch.{WriteBatch}
use aresadb.Core.WriteBatch.Op.{put, delete}
use aresadb.Core.Memory.{Data, write_ops, write_op}
use aresadb.Pd.Types.{RangeId, NodeId, NodeInfo, RangeDescriptor, u64_mod}
use aresadb.Pd.Error.{Result}
use aresadb.Pd.Command.{PdCommand, PdResponse}
use aresadb.Pd.Catalog.State.{Catalog, get_range, get_node}
use aresadb.Pd.Catalog.Apply
use aresadb.Pd.Persist.{range_key, node_key}
use aresadb.Pd.StateMachine.{
  ok, ◌>>=◌, Bincode, expect, put_range, put_node, response_range, build_write_batch,
}
use aresadb.Pd.StateMachine.Rows.{bind_ok, put_range-ops, put_node-ops}
use aresadb.Pd.StateMachine.Applies.{answered}
use aresadb.Pd.StateMachine.Nodes.{
  MirrorsNodes, NodesOwn, NodeFits, KeepsNodes, write_ops-KeepsNodes, insert-MirrorsNodes,
  eq?-range_key-node_key, node_row, kept-node_id, create_range-nodes, split_range-nodes,
  merge_ranges-nodes, update_membership-nodes, update_lease-nodes, get_inserted,
}

module _ (b : Bincode) where
  put_node-MirrorsNodes :
      (o : Option NodeInfo) (i : NodeId) (n : NodeInfo) (batch : WriteBatch) (m : Data)
      (nodes : BTreeMap NodeId NodeInfo)
      → o ≡ some n
      → n.node_id ≡ i
      → i < u64_mod
      → (expect o >>= λ info. put_node b WriteBatch.new info) ≡ ok batch
      → MirrorsNodes b m nodes
      → MirrorsNodes b (write_ops batch.ops m).0 (Map.insert i n nodes)
  unfolding write_ops write_op
  put_node-MirrorsNodes o i n batch m nodes e own u h k =
      let (v, s, out) = put_node-ops b WriteBatch.new batch n (rw e at h) in
      rw out (
        subst (λ j. MirrorsNodes b (Map.insert (node_key n.node_id) v m) (Map.insert j n nodes)) own
          (insert-MirrorsNodes b m nodes n.node_id n v (subst (λ j. j < u64_mod) (sym own) u) s k))

  put_range-KeepsNodes :
      (batch out : WriteBatch) (d : RangeDescriptor)
      → put_range b batch d ≡ ok out
      → All KeepsNodes batch.ops
      → All KeepsNodes out.ops
  put_range-KeepsNodes batch out d h k =
      let (v, s, e) = put_range-ops b batch out d h in
      rw e (
        All-append KeepsNodes batch.ops (put (range_key d.range_id) v ∷ []) k
          (eq?-range_key-node_key d.range_id, tt))

  amend-KeepsNodes :
      (o : Option RangeDescriptor) (batch : WriteBatch)
      → (expect o >>= λ d. put_range b WriteBatch.new d) ≡ ok batch
      → All KeepsNodes batch.ops
  amend-KeepsNodes o batch h =
      let (d, e, p) = bind_ok (expect o) (λ d. put_range b WriteBatch.new d) batch h in
      put_range-KeepsNodes WriteBatch.new batch d p tt

  split-KeepsNodes :
      (resp : PdResponse) (o : Option RangeDescriptor) (batch : WriteBatch)
      → (response_range b resp >>= λ rhs. expect o >>= λ parent.
          put_range b WriteBatch.new parent >>= λ batch. put_range b batch rhs)
        ≡ ok batch
      → All KeepsNodes batch.ops
  split-KeepsNodes resp o batch h =
      let (rhs, e, p) = bind_ok (response_range b resp) _ batch h in
      let (parent, f, q) = bind_ok (expect o) _ batch p in
      let (first, g, r) = bind_ok (put_range b WriteBatch.new parent) _ batch q in
      put_range-KeepsNodes first batch rhs r (put_range-KeepsNodes WriteBatch.new first parent g tt)

  merge-KeepsNodes :
      (right : RangeId) (o : Option RangeDescriptor) (batch : WriteBatch)
      → (expect o >>= λ d.
          put_range b WriteBatch.new d >>= λ batch. ok (WriteBatch.delete batch (range_key right)))
        ≡ ok batch
      → All KeepsNodes batch.ops
  unfolding WriteBatch.delete WriteBatch.push
  merge-KeepsNodes right o batch h =
      let (d, e, p) = bind_ok (expect o) _ batch h in
      let (first, g, r) = bind_ok (put_range b WriteBatch.new d) _ batch p in
      let same : WriteBatch.delete first (range_key right) ≡ batch = ground arith in
      subst (λ (w : WriteBatch). All KeepsNodes w.ops) same
        (All-append KeepsNodes first.ops (delete (range_key right) ∷ [])
          (put_range-KeepsNodes WriteBatch.new first d g tt) (eq?-range_key-node_key right, tt))

  kept-MirrorsNodes :
      (c c' : Catalog) (batch : WriteBatch) (m : Data)
      → c'.nodes ≡ c.nodes
      → All KeepsNodes batch.ops
      → MirrorsNodes b m c.nodes
      → MirrorsNodes b (write_ops batch.ops m).0 c'.nodes
  kept-MirrorsNodes c c' batch m same keeps h i u =
      write_ops-KeepsNodes batch.ops m i keeps
      ∙ h i u
      ∙ ap (λ nodes. node_row b (Map.get i nodes)) (sym same)

  heartbeat-MirrorsNodes :
      (c : Catalog) (n : NodeId) (t : ℕ) (batch : WriteBatch) (m : Data)
      → NodesOwn c.nodes
      → (Apply.heartbeat_node c n t).1 ≡ Result.ok tt
      → (expect (get_node (Apply.heartbeat_node c n t).0 n) >>= λ info.
          put_node b WriteBatch.new info)
        ≡ ok batch
      → MirrorsNodes b m c.nodes
      → MirrorsNodes b (write_ops batch.ops m).0 (Apply.heartbeat_node c n t).0.nodes
  unfolding Apply.heartbeat_node get_node
  heartbeat-MirrorsNodes c n t batch m own a h k = beaten (Map.get n c.nodes) refl a h
    where
      beaten :
          (o : Option NodeInfo)
          → Map.get n c.nodes ≡ o
          → (Apply.beat c n t o).1 ≡ Result.ok tt
          → (expect (Map.get n (Apply.beat c n t o).0.nodes) >>= λ info.
              put_node b WriteBatch.new info)
            ≡ ok batch
          → MirrorsNodes b (write_ops batch.ops m).0 (Apply.beat c n t o).0.nodes
      beaten none e a h = absurd (cc a)
      beaten (some entry) e a h =
          let next : NodeInfo = record entry {
            last_heartbeat_millis = max t entry.last_heartbeat_millis;
          } in
          put_node-MirrorsNodes _ n next batch m c.nodes (get_inserted n next c.nodes)
            (own n entry e).0 (own n entry e).1 h k

  -- What `build_write_batch` derives from an accepted command brings the rows to the new nodes.
  pub built-MirrorsNodes :
      (c : Catalog) (cmd : PdCommand) (resp : PdResponse) (batch : WriteBatch) (m : Data)
      → NodesOwn c.nodes
      → NodeFits cmd
      → (Apply.apply c cmd).1 ≡ Result.ok resp
      → build_write_batch b cmd resp (Apply.apply c cmd).0 ≡ ok batch
      → MirrorsNodes b m c.nodes
      → MirrorsNodes b (write_ops batch.ops m).0 (Apply.apply c cmd).0.nodes
  unfolding Apply.apply build_write_batch
  built-MirrorsNodes c (PdCommand.register_node info) resp batch m own u a h k =
      let kept = Apply.with_heartbeat_of info (Map.get info.node_id c.nodes) in
      unfold Apply.register_node in
      put_node-MirrorsNodes (get_node (Apply.register_node c info) info.node_id) info.node_id kept
        batch m c.nodes
        (unfold get_node in ground (arith, get-insert info.node_id info.node_id kept c.nodes))
        (kept-node_id info (Map.get info.node_id c.nodes)) u h k
  built-MirrorsNodes c (PdCommand.heartbeat_node n t) resp batch m own u a h k =
      heartbeat-MirrorsNodes c n t batch m own (answered (Apply.heartbeat_node c n t).1 resp a) h k
  built-MirrorsNodes c (PdCommand.create_range d) resp batch m own u a h k =
      kept-MirrorsNodes c (Apply.create_range c d).0 batch m (create_range-nodes c d)
        (put_range-KeepsNodes WriteBatch.new batch d h tt) k
  built-MirrorsNodes c (PdCommand.split_range p key) resp batch m own u a h k =
      let c' = (Apply.split_range c p key).0 in
      kept-MirrorsNodes c c' batch m (split_range-nodes c p key)
        (split-KeepsNodes resp (get_range c' p) batch h) k
  built-MirrorsNodes c (PdCommand.merge_ranges left right) resp batch m own u a h k =
      let c' = (Apply.merge_ranges c left right).0 in
      kept-MirrorsNodes c c' batch m (merge_ranges-nodes c left right)
        (merge-KeepsNodes right (get_range c' left) batch h) k
  built-MirrorsNodes c (PdCommand.update_membership i reps epoch) resp batch m own u a h k =
      let c' = (Apply.update_membership c i reps epoch).0 in
      kept-MirrorsNodes c c' batch m (update_membership-nodes c i reps epoch)
        (amend-KeepsNodes (get_range c' i) batch h) k
  built-MirrorsNodes c (PdCommand.update_lease i lease) resp batch m own u a h k =
      let c' = (Apply.update_lease c i lease).0 in
      kept-MirrorsNodes c c' batch m (update_lease-nodes c i lease)
        (amend-KeepsNodes (get_range c' i) batch h) k
