-- ===== src/Core/WriteBatch.antt =====
-- crates/aresadb-core/src/write_batch.rs: an ordered list of writes, built by appending.
pub mod Op
use aresadb.Prelude.{ℕ, Bool, true, false, List, [], ◌∷◌, ◌++◌, length}
use aresadb.Ord.Bytes.{Bytes}
use Op.{WriteOp}

pub record WriteBatch : Type 0 where
  pub ops : List WriteOp

abbrev pub new : WriteBatch
new = record { ops = [] }

unfoldable pub push : WriteBatch → WriteOp → WriteBatch
push b op = record { ops = b.ops ++ op ∷ [] }

unfoldable pub put : WriteBatch → Bytes → Bytes → WriteBatch
unfolding push
put b key value = push b (WriteOp.put key value)

unfoldable pub delete : WriteBatch → Bytes → WriteBatch
unfolding push
delete b key = push b (WriteOp.delete key)

unfoldable pub delete_range : WriteBatch → Bytes → Bytes → WriteBatch
unfolding push
delete_range b start end = push b (WriteOp.delete_range start end)

unfoldable pub len : WriteBatch → ℕ
len b = length b.ops

unfoldable pub is_empty : WriteBatch → Bool
is_empty b = elim b.ops [ [] ↦ true | _ ↦ false ]
