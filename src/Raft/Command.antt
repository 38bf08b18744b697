-- ===== src/Raft/Command.antt =====
-- crates/aresadb-raft/src/command.rs: the replicated command and its batch shaped for the wire.
use mathlib.Core.List.{append_assoc, append-nil}
use aresadb.Prelude.{ℕ, List, [], ◌∷◌, ◌++◌, length, ◌≡◌, refl, sym, ap, ◌∙◌}
use aresadb.Ord.Bytes.{Bytes}
use aresadb.Core.WriteBatch
use aresadb.Core.WriteBatch.{WriteBatch}
use aresadb.Core.WriteBatch.Op.{WriteOp}

pub data SerializableWriteOp : Type 0 where
  put : Bytes → Bytes → SerializableWriteOp
  delete : Bytes → SerializableWriteOp
  delete_range : Bytes → Bytes → SerializableWriteOp

pub record SerializableWriteBatch : Type 0 where
  pub ops : List SerializableWriteOp

pub data AresaCommand : Type 0 where
  noop : AresaCommand
  write_batch : SerializableWriteBatch → AresaCommand

pub record AresaResponse : Type 0 where
  pub ops_applied : ℕ

abbrev pub to_wire : WriteOp → SerializableWriteOp
to_wire (WriteOp.put key value) = put key value
to_wire (WriteOp.delete key) = delete key
to_wire (WriteOp.delete_range start end) = delete_range start end

abbrev pub to_wire_ops : List WriteOp → List SerializableWriteOp
to_wire_ops [] = []
to_wire_ops (op ∷ ops) = to_wire op ∷ to_wire_ops ops

unfoldable pub to_serializable : WriteBatch → SerializableWriteBatch
to_serializable b = record { ops = to_wire_ops b.ops }

-- The loop that puts each operation of the wire into the batch.
unfoldable pub fill : WriteBatch → List SerializableWriteOp → WriteBatch
unfolding WriteBatch.put WriteBatch.delete WriteBatch.delete_range
fill b [] = b
fill b (put key value ∷ ops) = fill (WriteBatch.put b key value) ops
fill b (delete key ∷ ops) = fill (WriteBatch.delete b key) ops
fill b (delete_range start end ∷ ops) = fill (WriteBatch.delete_range b start end) ops

unfoldable pub from_serializable : SerializableWriteBatch → WriteBatch
unfolding fill
from_serializable s = fill WriteBatch.new s.ops

unfoldable pub batch : WriteBatch → AresaCommand
unfolding to_serializable
batch b = write_batch (to_serializable b)

unfoldable pub ops_count : AresaCommand → ℕ
ops_count noop = 0
ops_count (write_batch b) = length b.ops

wire_of_op :
    (op : WriteOp) (ops : List SerializableWriteOp) (b : WriteBatch)
    → fill b (to_wire op ∷ ops) ≡ fill (WriteBatch.push b op) ops
unfolding fill WriteBatch.put WriteBatch.delete WriteBatch.delete_range
wire_of_op (WriteOp.put key value) ops b = refl
wire_of_op (WriteOp.delete key) ops b = refl
wire_of_op (WriteOp.delete_range start end) ops b = refl

fill-to_wire_ops :
    (b : WriteBatch) (ops : List WriteOp) → fill b (to_wire_ops ops) ≡ record { ops = b.ops ++ ops }
unfolding WriteBatch.push fill
fill-to_wire_ops b [] = ap (λ ops. record { ops = ops }) (sym (append-nil b.ops))
fill-to_wire_ops b (op ∷ ops) =
    wire_of_op op (to_wire_ops ops) b
    ∙ fill-to_wire_ops (WriteBatch.push b op) ops
    ∙ ap (λ ops. record { ops = ops }) (append_assoc b.ops (op ∷ []) ops)

-- The batch that a follower makes of the wire form of a batch is that batch, its operations in their
-- order.
pub from_serializable-to_serializable : (b : WriteBatch) → from_serializable (to_serializable b) ≡ b
unfolding from_serializable to_serializable
from_serializable-to_serializable b = fill-to_wire_ops WriteBatch.new b.ops
