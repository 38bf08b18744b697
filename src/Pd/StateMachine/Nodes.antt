-- ===== src/Pd/StateMachine/Nodes.antt =====
-- Rows on disk against the nodes of a catalog (crates/aresadb-pd/src/state_machine.rs).
use aresadb.Prelude.{
  ℕ, ◌<◌, ◌≡◌, refl, sym, ap, ◌∙◌, subst, Option, none, some, List, [], ◌∷◌, false, All, Bool-cases,
  inl, inr, ◌==◌, arith,
}
use aresadb.Ord.{eq?, eq?_refl, is_eq}
use aresadb.Ord.Nat.{nat_ord}
use aresadb.Ord.Bytes.{Bytes, bytes_ord}
use aresadb.Map
use aresadb.Map.{BTreeMap}
use aresadb.Map.Laws.{get-insert, get-remove}
use aresadb.Core.WriteBatch.Op.{WriteOp, put, delete, delete_range}
use aresadb.Core.Memory.{Data, write_ops, write_op}
use aresadb.Pd.Types.{
  RangeId, NodeId, NodeInfo, RangeDescriptor, ReplicaPlacement, LeaseInfo, u64_mod,
}
use aresadb.Pd.Command.{PdCommand}
use aresadb.Pd.Catalog.State.{Catalog}
use aresadb.Pd.Catalog.Apply
use aresadb.Pd.Catalog.Heartbeats.{merge_left-nodes}
use aresadb.Pd.Persist.{range_key, node_key}
use aresadb.Pd.Persist.Keys.{node_key-order}
use aresadb.Pd.StateMachine.{Bincode, pd_raft_meta_key}

abbrev pub node_row : Bincode → Option NodeInfo → Option Bytes
node_row b none = none
node_row b (some n) = b.serialize_node n

-- The row of every node id is what its entry serialises to, and is missing where the entry is.
abbrev pub MirrorsNodes : Bincode → Data → BTreeMap NodeId NodeInfo → Type 0
MirrorsNodes b m nodes =
    (i : NodeId) → i < u64_mod → Map.get (node_key i) m ≡ node_row b (Map.get i nodes)

-- Every node stands under its own id, a `u64`.
abbrev pub NodesOwn : BTreeMap NodeId NodeInfo → Type 0
NodesOwn nodes =
    (i : NodeId) (n : NodeInfo) → Map.get i nodes ≡ some n → (n.node_id ≡ i) × (i < u64_mod)

-- The id of a node that a command registers is a `u64`.
abbrev pub NodeFits : PdCommand → Type 0
NodeFits (PdCommand.register_node info) = info.node_id < u64_mod
NodeFits _ = Unit

pub eq?-node_key : (i j : ℕ) → i < u64_mod → j < u64_mod → eq? (node_key i) (node_key j) ≡ eq? i j
eq?-node_key i j h k = ap is_eq (node_key-order i j h k)

pub eq?-range_key-node_key : (i j : ℕ) → eq? (range_key i) (node_key j) ≡ false
unfolding range_key node_key
eq?-range_key-node_key i j = refl

pub eq?-pd_raft_meta_key-node_key : (j : ℕ) → eq? pd_raft_meta_key (node_key j) ≡ false
unfolding node_key
eq?-pd_raft_meta_key-node_key j = refl

-- An operation that writes no row of a node.
abbrev pub KeepsNodes : WriteOp → Type 0
KeepsNodes (put k v) = (j : ℕ) → eq? k (node_key j) ≡ false
KeepsNodes (delete k) = (j : ℕ) → eq? k (node_key j) ≡ false
KeepsNodes (delete_range start end) = ⊥

pub write_ops-KeepsNodes :
    (ops : List WriteOp) (m : Data) (j : ℕ)
    → All KeepsNodes ops
    → Map.get (node_key j) (write_ops ops m).0 ≡ Map.get (node_key j) m
unfolding write_ops write_op
write_ops-KeepsNodes [] m j h = refl
write_ops-KeepsNodes (put k v ∷ ops) m j h =
    write_ops-KeepsNodes ops (Map.insert k v m) j h.1
    ∙ get-insert k (node_key j) v m
    ∙ rw (h.0 j) refl
write_ops-KeepsNodes (delete k ∷ ops) m j h =
    write_ops-KeepsNodes ops (Map.remove k m) j h.1 ∙ get-remove k (node_key j) m ∙ rw (h.0 j) refl
write_ops-KeepsNodes (delete_range start end ∷ ops) m j h = absurd h.0

pub insert-MirrorsNodes :
    (b : Bincode) (m : Data) (nodes : BTreeMap NodeId NodeInfo) (i : NodeId) (n : NodeInfo)
    (v : Bytes)
    → i < u64_mod
    → b.serialize_node n ≡ some v
    → MirrorsNodes b m nodes
    → MirrorsNodes b (Map.insert (node_key i) v m) (Map.insert i n nodes)
insert-MirrorsNodes b m nodes i n v u s h j w = ground (
  arith,
  get-insert (node_key i) (node_key j) v m,
  get-insert i j n nodes,
  eq?-node_key i j u w,
  h j w,
)

pub get_inserted :
    (n : NodeId) (x : NodeInfo) (nodes : BTreeMap NodeId NodeInfo)
    → Map.get n (Map.insert n x nodes) ≡ some x
get_inserted n x nodes = get-insert n n x nodes ∙ rw (eq?_refl n) refl

insert-NodesOwn :
    (nodes : BTreeMap NodeId NodeInfo) (i : NodeId) (n : NodeInfo)
    → n.node_id ≡ i
    → i < u64_mod
    → NodesOwn nodes
    → NodesOwn (Map.insert i n nodes)
insert-NodesOwn nodes i n own u h j a g = elim (Bool-cases (i == j)) [
  | inl e ↦ (
    ground (arith, get-insert i j n nodes, g, own, e),
    ground (arith, get-insert i j n nodes, g, u, e),
  )
  | inr e ↦ h j a (ground (arith, get-insert i j n nodes, g, e))
]

pub kept-node_id :
    (info : NodeInfo) (o : Option NodeInfo)
    → (Apply.with_heartbeat_of info o).node_id ≡ info.node_id
kept-node_id info none = refl
kept-node_id info (some n) = refl

-- Only the two commands on nodes change them.
pub create_range-nodes :
    (c : Catalog) (d : RangeDescriptor) → (Apply.create_range c d).0.nodes ≡ c.nodes
unfolding Apply.create_range Apply.insert_range
create_range-nodes c d = ground arith

pub split_range-nodes :
    (c : Catalog) (p : RangeId) (key : Bytes) → (Apply.split_range c p key).0.nodes ≡ c.nodes
unfolding Apply.split_range Apply.split_state
split_range-nodes c p key = ground arith

pub merge_ranges-nodes :
    (c : Catalog) (left right : RangeId) → (Apply.merge_ranges c left right).0.nodes ≡ c.nodes
unfolding Apply.merge_ranges
merge_ranges-nodes c left right = merge_left-nodes c left right (Map.get left c.ranges)

pub update_membership-nodes :
    (c : Catalog) (i : RangeId) (reps : List ReplicaPlacement) (epoch : ℕ)
    → (Apply.update_membership c i reps epoch).0.nodes ≡ c.nodes
unfolding Apply.update_membership
update_membership-nodes c i reps epoch = ground arith

pub update_lease-nodes :
    (c : Catalog) (i : RangeId) (lease : Option LeaseInfo)
    → (Apply.update_lease c i lease).0.nodes ≡ c.nodes
unfolding Apply.update_lease
update_lease-nodes c i lease = ground arith

pub apply-NodesOwn :
    (c : Catalog) (cmd : PdCommand)
    → NodesOwn c.nodes
    → NodeFits cmd
    → NodesOwn (Apply.apply c cmd).0.nodes
unfolding Apply.apply
apply-NodesOwn c (PdCommand.register_node info) h u =
    unfold Apply.register_node in
    insert-NodesOwn c.nodes info.node_id
      (Apply.with_heartbeat_of info (Map.get info.node_id c.nodes))
      (kept-node_id info (Map.get info.node_id c.nodes)) u h
apply-NodesOwn c (PdCommand.heartbeat_node n t) h u =
    unfold Apply.heartbeat_node in beaten (Map.get n c.nodes) refl
  where
    beaten : (o : Option NodeInfo) → Map.get n c.nodes ≡ o → NodesOwn (Apply.beat c n t o).0.nodes
    beaten none e = h
    beaten (some entry) e = insert-NodesOwn c.nodes n _ (h n entry e).0 (h n entry e).1 h
apply-NodesOwn c (PdCommand.create_range d) h u = subst NodesOwn (sym (create_range-nodes c d)) h
apply-NodesOwn c (PdCommand.split_range p key) h u =
    subst NodesOwn (sym (split_range-nodes c p key)) h
apply-NodesOwn c (PdCommand.merge_ranges left right) h u =
    subst NodesOwn (sym (merge_ranges-nodes c left right)) h
apply-NodesOwn c (PdCommand.update_membership i reps epoch) h u =
    subst NodesOwn (sym (update_membership-nodes c i reps epoch)) h
apply-NodesOwn c (PdCommand.update_lease i lease) h u =
    subst NodesOwn (sym (update_lease-nodes c i lease)) h
