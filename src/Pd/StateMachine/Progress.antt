-- ===== src/Pd/StateMachine/Progress.antt =====
-- Accepted commands get their response (crates/aresadb-pd/src/state_machine.rs).
use aresadb.Prelude.{
  ℕ, ◌+◌, ◌<◌, ◌≡◌, max, refl, ◌∙◌, Option, none, some, List, [], ◌∷◌, false, Bool-cases,
  Option-cases, inl, inr, All, All-append, arith,
}
use aresadb.Ord.Nat.{nat_ord}
use aresadb.Ord.Bytes.{Bytes}
use aresadb.Map
use aresadb.Map.Laws.{get-insert}
use aresadb.Core.WriteBatch
use aresadb.Core.WriteBatch.{WriteBatch}
use aresadb.Core.WriteBatch.Op.{WriteOp}
use aresadb.Core.Memory
use aresadb.Core.Memory.{MemoryBackend}
use aresadb.Core.Memory.Batch.{InOrder, write_batch-view}
use aresadb.Pd.Types.{
  NodeId, NodeInfo, RangeId, RangeDescriptor, ReplicaPlacement, LeaseInfo, u64_mod,
}
use aresadb.Pd.Error.{Result}
use aresadb.Pd.Command.{PdCommand, PdResponse, range}
use aresadb.Pd.Catalog.State.{Catalog, get_range, get_node}
use aresadb.Pd.Catalog.Apply
use aresadb.Pd.Catalog.Valid.{IsValid}
use aresadb.Pd.Catalog.Split.{get-split}
use aresadb.Pd.Catalog.Merge.{merge_outcome, far, unlike, joined, get-merged_state, merged_state}
use aresadb.Pd.Catalog.Apply.{merged}
use aresadb.Pd.Catalog.Invariant.{HasRoom}
use aresadb.Pd.Persist.{range_key, node_key}
use aresadb.Pd.StateMachine.{
  Applied, ok, ◌>>=◌, Bincode, PdStateMachine, commit, put_meta, pd_raft_meta_key, expect,
  put_range, put_node, build_write_batch, apply_inner,
}
use aresadb.Pd.StateMachine.Applies.{answered}
use aresadb.Pd.StateMachine.Nodes.{NodeFits}
use aresadb.Pd.StateMachine.Disk.{IsInSync, apply_inner-IsInSync}

-- Every range and every node serialises.
pub record IsTotal (b : Bincode) : Type 0 where
  pub range_bytes : (d : RangeDescriptor) → (v : Bytes) × (b.serialize_range d ≡ some v)
  pub node_bytes : (n : NodeInfo) → (v : Bytes) × (b.serialize_node n ≡ some v)

-- A batch was built, and no range deletion of it is out of order.
abbrev pub Builds : Applied WriteBatch → Type 0
Builds r = (batch : WriteBatch) × (r ≡ ok batch) × All InOrder batch.ops

pub commit_total :
    (store : MemoryBackend) (batch : WriteBatch)
    → store.is_closed ≡ false
    → All InOrder batch.ops
    → (commit store batch).1 ≡ ok tt
unfolding commit Memory.flush Memory.write_batch Memory.ensure_open
commit_total store batch o h = ground (arith, (write_batch-view store batch o h).0)

pub put_meta-InOrder :
    (meta : Option Bytes) (batch : WriteBatch)
    → All InOrder batch.ops
    → All InOrder (put_meta meta batch).ops
unfolding WriteBatch.put WriteBatch.push
put_meta-InOrder none batch h = h
put_meta-InOrder (some meta) batch h =
    All-append InOrder batch.ops (WriteOp.put pd_raft_meta_key meta ∷ []) h (tt, tt)

heartbeat_node-get_node :
    (c : Catalog) (n : NodeId) (t : ℕ)
    → (Apply.heartbeat_node c n t).1 ≡ Result.ok tt
    → (a : NodeInfo) × (get_node (Apply.heartbeat_node c n t).0 n ≡ some a)
unfolding Apply.heartbeat_node get_node
heartbeat_node-get_node c n t h = elim (Option-cases (Map.get n c.nodes)) [
  | inl e ↦ absurd (ground arith)
  | inr (a, e) ↦ (
    record a { last_heartbeat_millis = max t a.last_heartbeat_millis },
    rw e (
        ground (
          arith,
          get-insert n n (record a { last_heartbeat_millis = max t a.last_heartbeat_millis })
              c.nodes,
        )),
  )
]

module _ (b : Bincode) (total : IsTotal b) where
  pub put_range-Builds :
      (batch : WriteBatch) (d : RangeDescriptor)
      → All InOrder batch.ops
      → Builds (put_range b batch d)
  unfolding put_range WriteBatch.put WriteBatch.push
  put_range-Builds batch d h =
      let (v, e) = total.range_bytes d in
      (
        WriteBatch.put batch (range_key d.range_id) v,
        rw e refl,
        All-append InOrder batch.ops (WriteOp.put (range_key d.range_id) v ∷ []) h (tt, tt),
      )

  put_node-Builds : (n : NodeInfo) → Builds (put_node b WriteBatch.new n)
  unfolding put_node WriteBatch.put WriteBatch.push
  put_node-Builds n =
      let (v, e) = total.node_bytes n in
      (WriteBatch.put WriteBatch.new (node_key n.node_id) v, rw e refl, (tt, tt))

  split-Builds :
      (c : Catalog) (p : RangeId) (rhs d : RangeDescriptor)
      → get_range c p ≡ some d
      → Builds (
          expect (get_range c p) >>= λ l.
          put_range b WriteBatch.new l >>= λ batch. put_range b batch rhs)
  split-Builds c p rhs d h =
      let (first, e, o) = put_range-Builds WriteBatch.new d tt in
      let (batch, f, q) = put_range-Builds first rhs o in (batch, rw (h, e) f, q)

  amend-Builds :
      (c : Catalog) (i : RangeId) (d : RangeDescriptor)
      → get_range c i ≡ some d
      → Builds (expect (get_range c i) >>= λ d. put_range b WriteBatch.new d)
  amend-Builds c i d h =
      let (batch, e, o) = put_range-Builds WriteBatch.new d tt in (batch, rw h e, o)

  merge-Builds :
      (c : Catalog) (left right : RangeId) (d : RangeDescriptor)
      → get_range c left ≡ some d
      → Builds (
          expect (get_range c left) >>= λ l.
          put_range b WriteBatch.new l >>= λ batch. ok (WriteBatch.delete batch (range_key right)))
  unfolding WriteBatch.delete WriteBatch.push
  merge-Builds c left right d h =
      let (first, e, o) = put_range-Builds WriteBatch.new d tt in
      (
        WriteBatch.delete first (range_key right),
        rw (h, e) refl,
        All-append InOrder first.ops (WriteOp.delete (range_key right) ∷ []) o (tt, tt),
      )

  built_split :
      (c : Catalog) (p : RangeId) (key : Bytes) (o : Option RangeDescriptor) (resp : PdResponse)
      → IsValid c
      → c.next_range_id + 1 < u64_mod
      → Map.get p c.ranges ≡ o
      → Apply.respond range (Apply.split_found c p key o).1 ≡ Result.ok resp
      → Builds
          (build_write_batch b (PdCommand.split_range p key) resp (Apply.split_found c p key o).0)
  unfolding build_write_batch get_range
  built_split c p key none resp v room hp a = absurd (cc a)
  built_split c p key (some parent) resp v room hp a = elim (Bool-cases (Apply.inside parent key)) [
    | inl ins ↦
        let same : resp ≡ range (Apply.split_rhs c parent key) = ground arith in
        rw (ins, same)
          (split-Builds (Apply.split_state c p parent key) p (Apply.split_rhs c parent key)
            (Apply.split_lhs parent key)
            (ground (arith, get-split v p parent key hp ins room p, v.below p parent hp)))
    | inr out ↦ absurd (ground arith)
  ]

  built_merge :
      (c : Catalog) (left right : RangeId) (o q : Option RangeDescriptor) (resp : PdResponse)
      → IsValid c
      → Map.get left c.ranges ≡ o
      → Map.get right c.ranges ≡ q
      → (Apply.merge_ranges c left right).1 ≡ Result.ok tt
      → Builds (
          build_write_batch b
            (PdCommand.merge_ranges left right)
            resp
            (Apply.merge_ranges c left right).0)
  unfolding build_write_batch Apply.merge_ranges get_range
  built_merge c left right none q resp v hl hr a = absurd (cc (rw hl at a))
  built_merge c left right (some l) none resp v hl hr a = absurd (cc (rw (hl, hr) at a))
  built_merge c left right (some l) (some r) resp v hl hr a =
      let found : Apply.merge_ranges c left right ≡ Apply.merge_found c left right l r =
        rw (hl, hr) refl in
      elim (merge_outcome c v left right l r hl hr) [
        | far t e ↦ absurd (cc (rw (found ∙ e) at a))
        | unlike adj t e ↦ absurd (cc (rw (found ∙ e) at a))
        | joined adj t e ↦ rw (found ∙ e) (
            merge-Builds (merged_state c left right l r) left right (merged l l r)
              (ground (arith, get-merged_state v left right l r hl hr adj left)))
      ]

  built_membership :
      (c : Catalog) (i : RangeId) (reps : List ReplicaPlacement) (epoch : ℕ) (resp : PdResponse)
      → (Apply.update_membership c i reps epoch).1 ≡ Result.ok tt
      → Builds (
          build_write_batch b
            (PdCommand.update_membership i reps epoch)
            resp
            (Apply.update_membership c i reps epoch).0)
  unfolding build_write_batch Apply.update_membership get_range
  built_membership c i reps epoch resp a = elim (Option-cases (Map.get i c.ranges)) [
    | inl e ↦ absurd (ground arith)
    | inr (d, e) ↦
        let new = record d { replicas = reps; epoch = epoch } in
        amend-Builds (Apply.update_membership c i reps epoch).0 i new
          (ground (arith, get-insert i i new c.ranges))
  ]

  built_lease :
      (c : Catalog) (i : RangeId) (lease : Option LeaseInfo) (resp : PdResponse)
      → (Apply.update_lease c i lease).1 ≡ Result.ok tt
      → Builds (
          build_write_batch b
            (PdCommand.update_lease i lease)
            resp
            (Apply.update_lease c i lease).0)
  unfolding build_write_batch Apply.update_lease get_range
  built_lease c i lease resp a = elim (Option-cases (Map.get i c.ranges)) [
    | inl e ↦ absurd (ground arith)
    | inr (d, e) ↦
        let new = record d { lease = lease } in
        amend-Builds (Apply.update_lease c i lease).0 i new
          (ground (arith, get-insert i i new c.ranges))
  ]

  node-Builds :
      (o : Option NodeInfo) (n : NodeInfo)
      → o ≡ some n
      → Builds (expect o >>= λ n. put_node b WriteBatch.new n)
  node-Builds o n h = rw h (put_node-Builds n)

  pub built :
      (c : Catalog) (cmd : PdCommand) (resp : PdResponse)
      → IsValid c
      → HasRoom c cmd
      → (Apply.apply c cmd).1 ≡ Result.ok resp
      → Builds (build_write_batch b cmd resp (Apply.apply c cmd).0)
  unfolding Apply.apply build_write_batch
  built c (PdCommand.register_node info) resp v room a =
      let kept = Apply.with_heartbeat_of info (Map.get info.node_id c.nodes) in
      node-Builds (get_node (Apply.register_node c info) info.node_id) kept (
        unfold get_node Apply.register_node in
        ground (arith, get-insert info.node_id info.node_id kept c.nodes))
  built c (PdCommand.heartbeat_node n t) resp v room a =
      let (x, e) = heartbeat_node-get_node c n t (answered (Apply.heartbeat_node c n t).1 resp a) in
      node-Builds (get_node (Apply.heartbeat_node c n t).0 n) x e
  built c (PdCommand.create_range d) resp v room a = put_range-Builds WriteBatch.new d tt
  built c (PdCommand.split_range p key) resp v room a =
      unfold Apply.split_range in built_split c p key (Map.get p c.ranges) resp v room refl a
  built c (PdCommand.merge_ranges left right) resp v room a =
      built_merge c left right (Map.get left c.ranges) (Map.get right c.ranges) resp v refl refl
        (answered (Apply.merge_ranges c left right).1 resp a)
  built c (PdCommand.update_membership i reps epoch) resp v room a =
      built_membership c i reps epoch resp
        (answered (Apply.update_membership c i reps epoch).1 resp a)
  built c (PdCommand.update_lease i lease) resp v room a =
      built_lease c i lease resp (answered (Apply.update_lease c i lease).1 resp a)

  pub apply_inner-answers :
      (sm : PdStateMachine) (cmd : PdCommand) (meta : Option Bytes) (resp : PdResponse)
      → IsValid sm.catalog
      → HasRoom sm.catalog cmd
      → sm.store.is_closed ≡ false
      → (Apply.apply sm.catalog cmd).1 ≡ Result.ok resp
      → (apply_inner b sm cmd meta).1 ≡ ok resp
  unfolding apply_inner
  apply_inner-answers sm cmd meta resp v room o a =
      let (batch, e, q) = built sm.catalog cmd resp v room a in
      rw (a, e, commit_total sm.store (put_meta meta batch) o (put_meta-InOrder meta batch q)) refl

  -- On an open backend whose rows mirror the ranges and the nodes of its well-formed catalog, and with a
  -- codec that never fails, a command that the catalog accepts, with room for its id and a `u64` for
  -- the id of a node that it registers, gets the catalog's response: no `expect` fails. The catalog is
  -- then the one that the command makes, and the batch is on disk: the rows of ranges and of nodes
  -- mirror it.
  pub apply_inner-commits :
      (sm : PdStateMachine) (cmd : PdCommand) (meta : Option Bytes) (resp : PdResponse)
      → IsInSync b sm
      → HasRoom sm.catalog cmd
      → NodeFits cmd
      → sm.store.is_closed ≡ false
      → (Apply.apply sm.catalog cmd).1 ≡ Result.ok resp
      → ((apply_inner b sm cmd meta).1 ≡ ok resp)
        × ((apply_inner b sm cmd meta).0.catalog ≡ (Apply.apply sm.catalog cmd).0)
        × IsInSync b (apply_inner b sm cmd meta).0
  apply_inner-commits sm cmd meta resp s room fits o a =
      let done = apply_inner-answers sm cmd meta resp s.valid room o a in
      let (e, same, synced) = apply_inner-IsInSync b sm cmd meta resp s room fits done in
      (done, same, synced)
