-- ===== src/Lib.antt =====
-- AresaDB keeps a property graph on ordered key-value engines. A cluster divides the keyspace into
-- ranges; the placement driver holds the catalog of the ranges and of the nodes, and changes it by
-- commands that Raft puts in one order for all its replicas.
--
-- Core models crates/aresadb-core, what every engine shares:
--   Core.KeyRange    range.rs: half-open spans whose empty end means the end of the keyspace
--   Core.Keys        keys.rs: the encoding of graph keys; Types has the keys and the errors, Segments
--                    the escapes (escape_into, write_multi, split_segments), Scans the prefixes
--   Core.WriteBatch  write_batch.rs
--   Core.Memory      memory.rs: MemoryBackend
-- Pd models crates/aresadb-pd, the placement driver:
--   Pd.Types, Pd.Error, Pd.Command   types.rs, error.rs, command.rs
--   Pd.Replicas                      replica_sets_equal of catalog.rs
--   Pd.Catalog.State, .Apply         catalog.rs: the Catalog, its reads and its commands
--   Pd.Catalog.Load                  Catalog::load, the catalog rebuilt from rows
--   Pd.Persist                       persist.rs: the keys of the rows on disk
--   Pd.StateMachine, .Recovery       state_machine.rs: the catalog with its rows on a backend, here the
--                                    in-memory engine; Recovery has opening and snapshots
--   Pd.Raft, .Snapshots              raft/state_machine.rs: committed entries applied to the state
--                                    machine, rejections folded into responses, snapshots
-- Raft models crates/aresadb-raft, the log and the replicated key-value store behind openraft:
--   Raft.Error         error.rs
--   Raft.LogStore      log_store.rs: the log, the vote and the pointers as rows of a backend
--   Raft.Command       command.rs: the replicated batch and its wire form
--   Raft.StateMachine, .Install   state_machine.rs: entries applied to a backend; Install has the
--                      snapshots
-- Cluster.Reconciler models crates/aresadb-cluster/src/pd_supervisor/reconciler.rs: which ranges a
-- node opens and closes to follow the catalog.
-- Distributed.Bloom models src/distributed/bloom.rs, the Bloom filter of version 1 (Encoding has
-- to_bytes and from_bytes), and Rag.Chunker models chunk_fixed_size of src/rag/chunker.rs.
--
-- The other children hold the proofs; those named Spec say what a component promises, and a module
-- Tests in each part runs the code and applies the theorems at concrete inputs. Map is Rust's
-- BTreeMap as a list of pairs sorted by key, Ord the order its keys bring along, Span the half-open
-- spans, BigEndian and Bits machine words.
--
-- A method that changes its object takes the state and returns the new one beside its result. A
-- result is ok, err or panicked; the last is what a failing index, `expect` or `BTreeMap::range` gives.
-- Bytes are a list of natural numbers; what needs them below 256 says so. A `u64` counter wraps at
-- 2 ^ 64, as it does in a release build, and HasRoom asks that the id a command counts past is not the
-- largest; NodeFits asks that a node id is a `u64`. A range deletion that is out of order panics, as
-- BTreeMap::range is documented to; on a map that never had an entry it does not. Loops are structural but for chunk_loop, whose fuel is a round for each code point: every
-- round moves on by one at least.
--
-- A lock is held over each call of MemoryBackend, so a call is one step; a snapshot is a copy.
--
-- bincode is a parameter (Pd.StateMachine.Bincode, and fields of Raft.LogStore.LogTypes,
-- Raft.StateMachine.SmTypes and Pd.Raft.RaftTypes): functions that may fail. Where a theorem asks that
-- they do not, or that what was written is read back, it says so (IsTotal, IsLawful, HasCodec). So are
-- openraft's ids, votes, entries and memberships, and the SipHash of the Bloom filter.
--
-- Not modelled: `encoded_len_hint` (a capacity), the network, the Raft library and the nodes that drive
-- it, the rest of the cluster node, the redb and fjall engines, the simulator, the counting Bloom
-- filter, the other ways to chunk a text, and the rest of the embedded database of version 1 under
-- src/: file and network I/O, and floating point.
pub mod Prelude
pub mod Ord
pub mod Map
pub mod Span
pub mod BigEndian
pub mod Bits
pub mod Core
pub mod Pd
pub mod Raft
pub mod Cluster
pub mod Distributed
pub mod Rag
