-- ===== src/Raft/StateMachine/Views.antt =====
-- The batches of the state machine as changes of a store's lookups.
use mathlib.Core.List.{append_assoc, append-nil}
use aresadb.Prelude.{◌≡◌, refl, sym, ap, ◌∙◌, Option, none, some, List, [], ◌∷◌, ◌++◌, All, arith}
use aresadb.Ord.{eq?_iff}
use aresadb.Ord.Bytes.{Bytes, bytes_ord}
use aresadb.Map
use aresadb.Map.{IsSorted}
use aresadb.Map.Sorted.{get-Above}
use aresadb.Core.WriteBatch
use aresadb.Core.WriteBatch.{WriteBatch}
use aresadb.Core.WriteBatch.Op.{WriteOp, put}
use aresadb.Core.Memory.{KeyValue}
use aresadb.Core.Memory.Batch.{View, view_op, view_ops, InOrder}
use aresadb.Core.Memory.Scan.{entries}
use aresadb.Raft.StateMachine.{push_all}
use aresadb.Raft.StateMachine.Install.{put_pairs, pairs_of}

pub ops-push_all :
    (batch : WriteBatch) (ops : List WriteOp) → (push_all batch ops).ops ≡ batch.ops ++ ops
unfolding push_all WriteBatch.push
ops-push_all batch [] = sym (append-nil batch.ops)
ops-push_all batch (op ∷ ops) =
    ops-push_all (WriteBatch.push batch op) ops ∙ append_assoc batch.ops (op ∷ []) ops

abbrev pub puts : List (Bytes × Bytes) → List WriteOp
puts [] = []
puts ((k, v) ∷ pairs) = put k v ∷ puts pairs

pub puts-InOrder : (pairs : List (Bytes × Bytes)) → All InOrder (puts pairs)
puts-InOrder [] = tt
puts-InOrder ((k, v) ∷ pairs) = (tt, puts-InOrder pairs)

pub ops-put_pairs :
    (batch : WriteBatch) (pairs : List (Bytes × Bytes))
    → (put_pairs batch pairs).ops ≡ batch.ops ++ puts pairs
unfolding put_pairs WriteBatch.put WriteBatch.push
ops-put_pairs batch [] = sym (append-nil batch.ops)
ops-put_pairs batch ((k, v) ∷ pairs) =
    ops-put_pairs (WriteBatch.put batch k v) pairs
    ∙ append_assoc batch.ops (put k v ∷ []) (puts pairs)

abbrev pub or_keep : Option Bytes → Option Bytes → Option Bytes
or_keep (some v) w = some v
or_keep none w = w

-- The rows of sorted pairs go over what was there.
pub view_ops-puts :
    (pairs : List (Bytes × Bytes)) (f : View) (j : Bytes)
    → IsSorted pairs
    → view_ops (puts pairs) f j ≡ or_keep (Map.get j pairs) (f j)
unfolding Map.get
view_ops-puts [] f j s = refl
view_ops-puts ((k, v) ∷ pairs) f j s =
    ground
      (arith, view_ops-puts pairs (view_op (put k v) f) j s.1, eq?_iff k j, get-Above k pairs s.0)

pub pairs_of-entries : (kvs : List KeyValue) → pairs_of kvs ≡ entries kvs
pairs_of-entries [] = refl
pairs_of-entries (kv ∷ kvs) = ap (λ r. (kv.key, kv.value) ∷ r) (pairs_of-entries kvs)
