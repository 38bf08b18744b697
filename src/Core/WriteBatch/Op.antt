-- ===== src/Core/WriteBatch/Op.antt =====
-- `WriteOp` of crates/aresadb-core/src/write_batch.rs: one write.
use aresadb.Ord.Bytes.{Bytes}

pub data WriteOp : Type 0 where
  put : Bytes → Bytes → WriteOp
  delete : Bytes → WriteOp
  delete_range : Bytes → Bytes → WriteOp
