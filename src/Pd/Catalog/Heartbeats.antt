-- ===== src/Pd/Catalog/Heartbeats.antt =====
-- The node inventory of crates/aresadb-pd/src/catalog.rs: heartbeats only go forward.
use aresadb.Prelude.{
  ℕ, ◌≤◌, ◌≡◌, refl, ap, ◌∙◌, Option, none, some, arith, Bool-cases, inl, inr, ◌==◌,
}
use aresadb.Ord.Nat.{nat_ord}
use aresadb.Ord.Bytes.{bytes_ord}
use aresadb.Map
use aresadb.Map.{IsSorted}
use aresadb.Map.Laws.{get-insert}
use aresadb.Pd.Types.{RangeId, NodeId, NodeInfo, RangeDescriptor}
use aresadb.Pd.Command.{PdCommand}
use aresadb.Pd.Catalog.State.{Catalog}
use aresadb.Pd.Catalog.Apply.{
  apply, register_node, heartbeat_node, beat, with_heartbeat_of, create_range, insert_range,
  split_range, split_state, merge_ranges, merge_found, merge_left, merge_right, drop_range,
  update_membership, update_lease,
}

-- The heartbeat that a catalog has for a node is at least `t`.
abbrev pub BeatAtLeast : Catalog → NodeId → ℕ → Type 0
BeatAtLeast c n t = (b : NodeInfo) × (Map.get n c.nodes ≡ some b) × (t ≤ b.last_heartbeat_millis)

insert_beat :
    (c : Catalog) (m n : NodeId) (a b : NodeInfo)
    → Map.get n c.nodes ≡ some a
    → (Map.get m c.nodes ≡ some a → a.last_heartbeat_millis ≤ b.last_heartbeat_millis)
    → (e : NodeInfo) × (Map.get n (Map.insert m b c.nodes) ≡ some e)
      × (a.last_heartbeat_millis ≤ e.last_heartbeat_millis)
insert_beat c m n a b h le = elim (Bool-cases (m == n)) [
  | inl e ↦ (b, ground (arith, get-insert m n b c.nodes), ground arith)
  | inr e ↦ (a, ground (arith, get-insert m n b c.nodes), ground arith)
]

beat-keeps :
    (c : Catalog) (m : NodeId) (t : ℕ) (o : Option NodeInfo) (n : NodeId) (a : NodeInfo)
    → Map.get m c.nodes ≡ o
    → Map.get n c.nodes ≡ some a
    → BeatAtLeast (beat c m t o).0 n a.last_heartbeat_millis
beat-keeps c m t none n a e h = (a, h, omega arith)
beat-keeps c m t (some entry) n a e h = insert_beat c m n a _ h (λ g. ground arith)

nodes-same :
    (c c' : Catalog) (n : NodeId) (a : NodeInfo)
    → c'.nodes ≡ c.nodes
    → Map.get n c.nodes ≡ some a
    → BeatAtLeast c' n a.last_heartbeat_millis
nodes-same c c' n a e h = (a, ap (Map.get n) e ∙ h, omega arith)

pub merge_left-nodes :
    (c : Catalog) (left right : RangeId) (o : Option RangeDescriptor)
    → (merge_left c left right o).0.nodes ≡ c.nodes
merge_left-nodes c left right none = refl
merge_left-nodes c left right (some l) = on_right (Map.get right c.ranges)
  where
    on_right : (o : Option RangeDescriptor) → (merge_right c left right l o).0.nodes ≡ c.nodes
    on_right none = refl
    on_right (some r) = unfold merge_found drop_range in ground arith

-- Over any command, accepted or not, a registered node stays registered and its last heartbeat does
-- not go back, also when the node registers again.
pub heartbeat-apply :
    (c : Catalog) (cmd : PdCommand) (n : NodeId) (a : NodeInfo)
    → Map.get n c.nodes ≡ some a
    → BeatAtLeast (apply c cmd).0 n a.last_heartbeat_millis
unfolding apply
heartbeat-apply c (PdCommand.register_node info) n a h =
    unfold register_node in
    insert_beat c info.node_id n a (with_heartbeat_of info (Map.get info.node_id c.nodes)) h
      (λ g. rw g (omega arith))
heartbeat-apply c (PdCommand.heartbeat_node m t) n a h =
    unfold heartbeat_node in beat-keeps c m t (Map.get m c.nodes) n a refl h
heartbeat-apply c (PdCommand.create_range desc) n a h =
    nodes-same c (create_range c desc).0 n a (unfold create_range insert_range in ground arith) h
heartbeat-apply c (PdCommand.split_range p key) n a h =
    nodes-same c (split_range c p key).0 n a (unfold split_range split_state in ground arith) h
heartbeat-apply c (PdCommand.merge_ranges left right) n a h =
    nodes-same c (merge_ranges c left right).0 n a
      (unfold merge_ranges in merge_left-nodes c left right (Map.get left c.ranges)) h
heartbeat-apply c (PdCommand.update_membership i reps epoch) n a h =
    nodes-same c (update_membership c i reps epoch).0 n a (unfold update_membership in ground arith)
      h
heartbeat-apply c (PdCommand.update_lease i lease) n a h =
    nodes-same c (update_lease c i lease).0 n a (unfold update_lease in ground arith) h
