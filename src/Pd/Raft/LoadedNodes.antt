-- ===== src/Pd/Raft/LoadedNodes.antt =====
-- The nodes of a catalog loaded from a snapshot, against those of the catalog that it was built from.
use aresadb.Prelude.{
  ◌≡◌, refl, ap, ◌∙◌, Bool, true, false, ◌||◌, some, List, [], ◌∷◌, All, if◌then◌else◌, arith,
  Option-cases, inl, inr,
}
use aresadb.Ord.{eq?, eq?_iff}
use aresadb.Ord.Nat.{nat_ord}
use aresadb.Ord.Bytes.{bytes_ord}
use aresadb.Map
use aresadb.Map.{BTreeMap, IsSorted}
use aresadb.Map.Laws.{get-insert}
use aresadb.Map.Sorted.{All-get}
use aresadb.Pd.Types.{RangeId, NodeId, NodeInfo, RangeDescriptor}
use aresadb.Pd.Catalog.State.{Catalog, new, get_node, iter_nodes}
use aresadb.Pd.Catalog.Load.{load, load_range, load_ranges, load_nodes}
use aresadb.Pd.StateMachine.Nodes.{NodesOwn}
use aresadb.Pd.Raft.Written.{NodesFit}

abbrev has_node : NodeId → List NodeInfo → Bool
has_node i [] = false
has_node i (n ∷ ns) = eq? n.node_id i || has_node i ns

load_ranges-nodes : (a : Catalog) (ds : List RangeDescriptor) → (load_ranges a ds).nodes ≡ a.nodes
load_ranges-nodes a [] = refl
load_ranges-nodes a (d ∷ ds) = load_ranges-nodes (load_range a d) ds

load_nodes-nodes :
    (c a : Catalog) (ns : List NodeInfo) (i : NodeId)
    → All (λ n. Map.get n.node_id c.nodes ≡ some n) ns
    → Map.get i (load_nodes a ns).nodes
      ≡ (if has_node i ns then Map.get i c.nodes else Map.get i a.nodes)
load_nodes-nodes c a [] i h = refl
load_nodes-nodes c a (n ∷ ns) i h = ground (
  arith,
  load_nodes-nodes c (record a { nodes = Map.insert n.node_id n a.nodes }) ns i h.1,
  get-insert n.node_id i n a.nodes,
  h.0,
  eq?_iff n.node_id i,
)

-- What the entries of a map of nodes say of the nodes listed.
values_lem :
    (c : Catalog) (m : BTreeMap NodeId NodeInfo)
    → NodesOwn c.nodes
    → All (λ e. Map.get e.0 c.nodes ≡ some e.1) m
    → All (λ n. Map.get n.node_id c.nodes ≡ some n) (Map.values m)
      × NodesFit (Map.values m)
      × ((i : NodeId) (n : NodeInfo) → Map.get i m ≡ some n → has_node i (Map.values m) ≡ true)
unfolding Map.values Map.get
values_lem c [] own h = (tt, tt, λ i n g. cc)
values_lem c ((k, x) ∷ m) own h =
    let (from, fit, listed) = values_lem c m own h.1 in
    let (same, below) = own k x h.0 in
    (
      (ap (λ j. Map.get j c.nodes) same ∙ h.0, from),
      (rw same below, fit),
      λ i n g. ground (arith, g, listed i n, same, eq?_iff k i),
    )

-- The nodes that a catalog lists fit, and are all that a catalog loaded from them has.
pub iter_nodes-loaded :
    (c : Catalog) (ds : List RangeDescriptor) (hint : RangeId)
    → NodesOwn c.nodes
    → IsSorted c.nodes
    → NodesFit (iter_nodes c)
      × ((i : NodeId) → get_node (load ds (iter_nodes c) hint) i ≡ get_node c i)
unfolding iter_nodes get_node load
iter_nodes-loaded c ds hint own sorted =
    let (from, fit, listed) = values_lem c c.nodes own (All-get c.nodes sorted) in
    (
      fit,
      λ i. load_nodes-nodes c (load_ranges new ds) (Map.values c.nodes) i from ∙ found i (listed i),
    )
  where
    found :
        (i : NodeId)
        → ((n : NodeInfo) → Map.get i c.nodes ≡ some n → has_node i (Map.values c.nodes) ≡ true)
        → (if has_node i (Map.values c.nodes)
            then Map.get i c.nodes
            else Map.get i (load_ranges new ds).nodes)
          ≡ Map.get i c.nodes
    found i listed = elim (Option-cases (Map.get i c.nodes)) [
      | inl e ↦ rw (load_ranges-nodes new ds) (unfold Map.get in ground (arith, e))
      | inr (n, e) ↦ rw (listed n e) refl
    ]
