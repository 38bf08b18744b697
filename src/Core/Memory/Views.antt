-- ===== src/Core/Memory/Views.antt =====
-- Views of a store under lists of operations.
use aresadb.Prelude.{◌≡◌, refl, List, [], ◌∷◌, ◌++◌, arith}
use aresadb.Ord.Bytes.{Bytes}
use aresadb.Core.WriteBatch.Op.{WriteOp, put, delete, delete_range}
use aresadb.Core.Memory.Batch.{View, view_op, view_ops}

-- What operations make of a key depends on that key alone.
view_op-local :
    (op : WriteOp) (f g : View) (j : Bytes) → f j ≡ g j → view_op op f j ≡ view_op op g j
view_op-local (put key value) f g j h = ground (arith, h)
view_op-local (delete key) f g j h = ground (arith, h)
view_op-local (delete_range start end) f g j h = ground (arith, h)

pub view_ops-local :
    (ops : List WriteOp) (f g : View) (j : Bytes) → f j ≡ g j → view_ops ops f j ≡ view_ops ops g j
view_ops-local [] f g j h = h
view_ops-local (op ∷ ops) f g j h =
    view_ops-local ops (view_op op f) (view_op op g) j (view_op-local op f g j h)

pub view_ops-append :
    (xs ys : List WriteOp) (f : View) → view_ops (xs ++ ys) f ≡ view_ops ys (view_ops xs f)
view_ops-append [] ys f = refl
view_ops-append (op ∷ xs) ys f = view_ops-append xs ys (view_op op f)
