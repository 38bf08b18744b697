-- ===== src/Pd/Catalog/Load.antt =====
-- `Catalog::load` of crates/aresadb-pd/src/catalog.rs: the catalog rebuilt from its rows.
pub mod Laws
use aresadb.Prelude.{max, List, [], ◌∷◌}
use aresadb.Ord.Nat.{nat_ord}
use aresadb.Ord.Bytes.{bytes_ord}
use aresadb.Map
use aresadb.Pd.Types.{RangeId, NodeInfo, RangeDescriptor, incr}
use aresadb.Pd.Catalog.State.{Catalog, new}

abbrev pub load_range : Catalog → RangeDescriptor → Catalog
load_range c desc = record c {
  by_start = Map.insert desc.start_key desc.range_id c.by_start;
  by_group = Map.insert desc.raft_group_id desc.range_id c.by_group;
  next_range_id = max c.next_range_id (incr desc.range_id);
  ranges = Map.insert desc.range_id desc c.ranges;
}

abbrev pub load_ranges : Catalog → List RangeDescriptor → Catalog
load_ranges c [] = c
load_ranges c (desc ∷ ranges) = load_ranges (load_range c desc) ranges

abbrev pub load_nodes : Catalog → List NodeInfo → Catalog
load_nodes c [] = c
load_nodes c (info ∷ nodes) =
    load_nodes (record c { nodes = Map.insert info.node_id info c.nodes }) nodes

abbrev pub hinted : RangeId → Catalog → Catalog
hinted hint c = record c { next_range_id = max c.next_range_id hint }

unfoldable pub load : List RangeDescriptor → List NodeInfo → RangeId → Catalog
load ranges nodes next_range_id_hint =
    hinted next_range_id_hint (load_nodes (load_ranges new ranges) nodes)
