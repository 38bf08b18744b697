-- ===== src/Pd/Command.antt =====
-- crates/aresadb-pd/src/command.rs: the replicated commands and their responses.
use Prim.Native.String.{String}
use aresadb.Prelude.{ℕ, Option, List}
use aresadb.Ord.Bytes.{Bytes}
use aresadb.Pd.Types.{RangeId, NodeId, NodeInfo, RangeDescriptor, ReplicaPlacement, LeaseInfo}

pub data PdCommand : Type 0 where
  register_node : NodeInfo → PdCommand
  heartbeat_node : NodeId → ℕ → PdCommand
  create_range : RangeDescriptor → PdCommand
  split_range : RangeId → Bytes → PdCommand
  merge_ranges : RangeId → RangeId → PdCommand
  update_membership : RangeId → List ReplicaPlacement → ℕ → PdCommand
  update_lease : RangeId → Option LeaseInfo → PdCommand

-- `Error` of the source is built by the Raft adapter only.
pub data PdResponse : Type 0 where
  done : PdResponse
  range : RangeDescriptor → PdResponse
  error : String → PdResponse
