-- ===== src/Pd/Types.antt =====
-- crates/aresadb-pd/src/types.rs. Ids, counters and timestamps are `u64`.
pub use aresadb.BigEndian.{u64_mod}
use Prim.Native.String.{String}
use aresadb.Prelude.{ℕ, ◌+◌, ◌%◌, Bool, true, ◌&&◌, ◌||◌, Option, none, List, if◌then◌else◌}
use aresadb.Ord.{lt?, le?}
use aresadb.Ord.Bytes.{Bytes, bytes_ord}
use aresadb.Span.{is_empty}

abbrev pub NodeId : Type 0
NodeId = ℕ

abbrev pub StoreId : Type 0
StoreId = ℕ

abbrev pub RangeId : Type 0
RangeId = ℕ

abbrev pub GroupId : Type 0
GroupId = ℕ

-- `n + 1` on `u64`, as a release build computes it.
abbrev pub incr : ℕ → ℕ
incr n = (n + 1) % u64_mod

pub data ReplicaRole : Type 0 where
  voter learner : ReplicaRole

pub record ReplicaPlacement : Type 0 where
  pub node_id : NodeId
  pub store_id : StoreId
  pub role : ReplicaRole

pub record LeaseInfo : Type 0 where
  pub holder : NodeId
  pub expires_at_millis : ℕ

pub record RangeDescriptor : Type 0 where
  pub range_id : RangeId
  pub start_key : Bytes
  pub end_key : Bytes
  pub replicas : List ReplicaPlacement
  pub raft_group_id : GroupId
  pub epoch : ℕ
  pub generation : ℕ
  pub lease : Option LeaseInfo

abbrev pub new : RangeId → Bytes → Bytes → List ReplicaPlacement → RangeDescriptor
new range_id start_key end_key replicas = record {
  range_id = range_id;
  start_key = start_key;
  end_key = end_key;
  replicas = replicas;
  raft_group_id = range_id;
  epoch = 0;
  generation = 0;
  lease = none;
}

unfoldable pub contains : RangeDescriptor → Bytes → Bool
contains d key =
    let ge_start = le? d.start_key key in
    let lt_end = is_empty d.end_key || lt? key d.end_key in ge_start && lt_end

unfoldable pub has_non_empty_span : RangeDescriptor → Bool
has_non_empty_span d = if is_empty d.end_key then true else lt? d.start_key d.end_key

pub record NodeInfo : Type 0 where
  pub node_id : NodeId
  pub address : String
  pub stores : List StoreId
  pub last_heartbeat_millis : ℕ
