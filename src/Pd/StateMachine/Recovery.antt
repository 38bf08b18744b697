-- ===== src/Pd/StateMachine/Recovery.antt =====
-- Opening and snapshots of crates/aresadb-pd/src/state_machine.rs.
use aresadb.Prelude.{max, Option, none, some, List, [], ◌∷◌}
use aresadb.Ord.Bytes.{Bytes}
use aresadb.Core.KeyRange
use aresadb.Core.WriteBatch
use aresadb.Core.WriteBatch.{WriteBatch}
use aresadb.Core.Memory
use aresadb.Core.Memory.{MemoryBackend, KeyValue}
use aresadb.Pd.Types.{RangeId, NodeInfo, RangeDescriptor, incr}
use aresadb.Pd.Catalog.State.{Catalog}
use aresadb.Pd.Catalog.Load.{load}
use aresadb.Pd.Persist.{
  range_prefix, node_prefix, range_id_from_key, node_id_from_key, prefix_upper_bound,
}
use aresadb.Pd.StateMachine.{
  Applied, ok, err, panicked, ◌>>=◌, Bincode, PdStateMachine, from_backend, from_bincode, commit,
  put_meta, put_range, put_node,
}

-- The greatest id, and the id past it; 1 if there is none.
abbrev pub max_id : Option RangeId → List RangeDescriptor → Option RangeId
max_id m [] = m
max_id none (d ∷ ranges) = max_id (some d.range_id) ranges
max_id (some i) (d ∷ ranges) = max_id (some (max i d.range_id)) ranges

abbrev pub past : Option RangeId → RangeId
past none = 1
past (some m) = incr m

module _ (b : Bincode) where
  -- Rows whose key is malformed are skipped; the first row that cannot be read ends the scan.
  abbrev pub read_range :
      Option RangeId → KeyValue → Applied (List RangeDescriptor) → Applied (List RangeDescriptor)
  read_range none kv rest = rest
  read_range (some i) kv rest = do
    desc ← from_bincode (b.deserialize_range kv.value)
    out ← rest
    ok (desc ∷ out)

  abbrev pub read_ranges : List KeyValue → Applied (List RangeDescriptor)
  read_ranges [] = ok []
  read_ranges (kv ∷ kvs) = read_range (range_id_from_key kv.key) kv (read_ranges kvs)

  abbrev pub read_node :
      Option RangeId → KeyValue → Applied (List NodeInfo) → Applied (List NodeInfo)
  read_node none kv rest = rest
  read_node (some i) kv rest = do
    info ← from_bincode (b.deserialize_node kv.value)
    out ← rest
    ok (info ∷ out)

  abbrev pub read_nodes : List KeyValue → Applied (List NodeInfo)
  read_nodes [] = ok []
  read_nodes (kv ∷ kvs) = read_node (node_id_from_key kv.key) kv (read_nodes kvs)

  unfoldable pub scan_ranges : MemoryBackend → Applied (List RangeDescriptor)
  scan_ranges store = do
    end ← from_backend (prefix_upper_bound range_prefix)
    kvs ← from_backend (Memory.scan store (KeyRange.new range_prefix end))
    read_ranges kvs

  unfoldable pub scan_nodes : MemoryBackend → Applied (List NodeInfo)
  scan_nodes store = do
    end ← from_backend (prefix_upper_bound node_prefix)
    kvs ← from_backend (Memory.scan store (KeyRange.new node_prefix end))
    read_nodes kvs

  unfoldable pub rehydrate : MemoryBackend → Applied Catalog
  rehydrate store = do
    ranges ← scan_ranges store
    nodes ← scan_nodes store
    ok (load ranges nodes (past (max_id none ranges)))

  unfoldable pub open_store : MemoryBackend → Applied PdStateMachine
  open_store store = do catalog ← rehydrate store; ok (record { store = store; catalog = catalog })

  abbrev pub put_all_ranges : WriteBatch → List RangeDescriptor → Applied WriteBatch
  put_all_ranges batch [] = ok batch
  put_all_ranges batch (desc ∷ ranges) =
      put_range b batch desc >>= λ batch. put_all_ranges batch ranges

  abbrev pub put_all_nodes : WriteBatch → List NodeInfo → Applied WriteBatch
  put_all_nodes batch [] = ok batch
  put_all_nodes batch (info ∷ nodes) = put_node b batch info >>= λ batch. put_all_nodes batch nodes

  unfoldable pub snapshot_batch : List RangeDescriptor → List NodeInfo → Bytes → Applied WriteBatch
  snapshot_batch ranges nodes meta = do
    range_end ← from_backend (prefix_upper_bound range_prefix)
    node_end ← from_backend (prefix_upper_bound node_prefix)
    batch ←
        put_all_ranges
          (WriteBatch.delete_range (WriteBatch.delete_range WriteBatch.new range_prefix range_end)
            node_prefix node_end)
          ranges
    batch ← put_all_nodes batch nodes
    ok (put_meta (some meta) batch)

  -- The catalog is swapped only after the batch is on disk.
  abbrev pub swap_if_written :
      PdStateMachine → Catalog → Applied (Unit {0}) → PdStateMachine × Applied (Unit {0})
  swap_if_written sm c (ok u) = (record sm { catalog = c }, ok tt)
  swap_if_written sm c (err e) = (sm, err e)
  swap_if_written sm c panicked = (sm, panicked)

  abbrev pub install_built :
      PdStateMachine → Catalog → Applied WriteBatch → PdStateMachine × Applied (Unit {0})
  install_built sm c (ok batch) =
      let r = commit sm.store batch in swap_if_written (record sm { store = r.0 }) c r.1
  install_built sm c (err e) = (sm, err e)
  install_built sm c panicked = (sm, panicked)

  unfoldable pub install_catalog_snapshot :
      PdStateMachine
      → List RangeDescriptor
      → List NodeInfo
      → RangeId
      → Bytes
      → PdStateMachine × Applied (Unit {0})
  install_catalog_snapshot sm ranges nodes next_range_id meta =
      install_built sm (load ranges nodes next_range_id) (snapshot_batch ranges nodes meta)
