-- ===== src/Core/Memory/Batch.antt =====
-- What a batch does, against a description of a store as a function from keys to values.
use aresadb.Prelude.{
  ◌≡◌, refl, ap, Bool, true, false, ◌&&◌, Option, none, some, List, [], ◌∷◌, if◌then◌else◌, All,
  arith, Bool-cases, inl, inr,
}
use aresadb.Ord.{lt?, le?, eq?, eq?_iff}
use aresadb.Ord.Bytes.{Bytes, bytes_ord}
use aresadb.Map
use aresadb.Map.{BTreeMap, IsSorted}
use aresadb.Map.Laws.{get-insert, get-remove, get-filter_keys}
use aresadb.Map.Sorted.{insert-IsSorted, remove-IsSorted}
use aresadb.Core.Error.{Outcome, ok}
use aresadb.Core.WriteBatch.{WriteBatch}
use aresadb.Core.WriteBatch.Op.{WriteOp, put, delete, delete_range}
use aresadb.Core.Memory.{
  MemoryBackend, Data, keys, remove_all, write_op, write_ops, write_batch, write_next,
}
use mathlib.Core.Path.{fun_ext}

-- A store as its lookups show it.
abbrev pub View : Type 0
View = Bytes → Option Bytes

abbrev pub view_op : WriteOp → View → View
view_op (put key value) f j = if eq? key j then some value else f j
view_op (delete key) f j = if eq? key j then none else f j
view_op (delete_range start end) f j = if le? start j && lt? j end then none else f j

abbrev pub view_ops : List WriteOp → View → View
view_ops [] f = f
view_ops (op ∷ ops) f = view_ops ops (view_op op f)

-- The bounds of every range delete are in order.
abbrev pub InOrder : WriteOp → Type 0
InOrder (delete_range start end) = lt? end start ≡ false
InOrder _ = Unit

abbrev mem_key : Bytes → List Bytes → Bool
mem_key j [] = false
mem_key j (k ∷ ks) = if eq? k j then true else mem_key j ks

get-remove_all :
    (j : Bytes) (ks : List Bytes) (m : Data)
    → Map.get j (remove_all ks m) ≡ (if mem_key j ks then none else Map.get j m)
unfolding remove_all
get-remove_all j [] m = refl
get-remove_all j (k ∷ ks) m =
    rw (get-remove_all j ks (Map.remove k m), get-remove k j m) (ground arith)

mem_key-keys :
    (j : Bytes) (p : Bytes → Bool) (m : Data)
    → p j ≡ false
    → mem_key j (keys (Map.filter_keys p m)) ≡ false
unfolding Map.filter_keys
mem_key-keys j p [] h = refl
mem_key-keys j p ((k, v) ∷ m) h = ground (arith, mem_key-keys j p m h, eq?_iff k j)

get-keys-none : (j : Bytes) (m : Data) → mem_key j (keys m) ≡ false → Map.get j m ≡ none
unfolding Map.get
get-keys-none j [] h = refl
get-keys-none j ((k, v) ∷ m) h = ground (arith, get-keys-none j m)

get-delete_range :
    (start end j : Bytes) (m : Data)
    → Map.get j (remove_all (keys (Map.filter_keys (λ k. le? start k && lt? k end) m)) m)
      ≡ (if le? start j && lt? j end then none else Map.get j m)
get-delete_range start end j m =
    let p : Bytes → Bool = λ k. le? start k && lt? k end in
    ground (
      arith,
      get-remove_all j (keys (Map.filter_keys p m)) m,
      mem_key-keys j p m,
      get-filter_keys p j m,
      get-keys-none j (Map.filter_keys p m),
    )

-- The map after an operation, where it does not panic.
after_op : WriteOp → Data → Data
after_op (put key value) m = Map.insert key value m
after_op (delete key) m = Map.remove key m
after_op (delete_range start end) m =
    remove_all (keys (Map.filter_keys (λ k. le? start k && lt? k end) m)) m

write_op-InOrder : (op : WriteOp) (m : Data) → InOrder op → write_op op m ≡ ok (after_op op m)
unfolding write_op after_op
write_op-InOrder (put key value) m h = refl
write_op-InOrder (delete key) m h = refl
write_op-InOrder (delete_range start end) m h = rw h

get-after_op :
    (op : WriteOp) (m : Data) → (λ j. Map.get j (after_op op m)) ≡ view_op op (λ j. Map.get j m)
unfolding after_op
get-after_op (put key value) m = fun_ext λ j. get-insert key j value m
get-after_op (delete key) m = fun_ext λ j. get-remove key j m
get-after_op (delete_range start end) m = fun_ext λ j. get-delete_range start end j m

abbrev pub Applies : MemoryBackend → WriteBatch → Type 0
Applies b batch =
    ((write_batch b batch).1 ≡ ok tt)
    × ((write_batch b batch).0.is_closed ≡ false)
    × ((j : Bytes)
        → Map.get j (write_batch b batch).0.contents
          ≡ view_ops batch.ops (λ k. Map.get k b.contents) j)

write_ops-view :
    (ops : List WriteOp) (m : Data)
    → All InOrder ops
    → ((write_ops ops m).1 ≡ ok tt)
      × ((λ j. Map.get j (write_ops ops m).0) ≡ view_ops ops (λ j. Map.get j m))
unfolding write_ops
write_ops-view [] m h = (refl, refl)
write_ops-view (op ∷ ops) m h =
    rw (write_op-InOrder op m h.0, ← get-after_op op m) (write_ops-view ops (after_op op m) h.1)

write_batch-open :
    (b : MemoryBackend) (batch : WriteBatch)
    → b.is_closed ≡ false
    → write_batch b batch ≡ (
      record b { contents = (write_ops batch.ops b.contents).0 },
      (write_ops batch.ops b.contents).1,
    )
unfolding write_batch
write_batch-open b batch o = simp o

-- A batch whose range deletes have their bounds in order succeeds on an open engine, and then
-- every lookup is what the operations, taken one after another, make of the lookups before.
pub write_batch-view :
    (b : MemoryBackend) (batch : WriteBatch)
    → b.is_closed ≡ false
    → All InOrder batch.ops
    → Applies b batch
write_batch-view b batch o h =
    let w = write_ops-view batch.ops b.contents h in
    rw (write_batch-open b batch o) (w.0, o, λ j. ap (λ (f : View). f j) w.1)

remove_all-IsSorted : (ks : List Bytes) (m : Data) → IsSorted m → IsSorted (remove_all ks m)
unfolding remove_all
remove_all-IsSorted [] m s = s
remove_all-IsSorted (k ∷ ks) m s = remove_all-IsSorted ks (Map.remove k m) (remove-IsSorted k m s)

write_next-IsSorted :
    (op : WriteOp) (m : Data) (rest : Data → Data × Outcome (Unit {0}))
    → IsSorted m
    → ((m' : Data) → IsSorted m' → IsSorted (rest m').0)
    → IsSorted (write_next (write_op op m) m rest).0
unfolding write_op
write_next-IsSorted (put key value) m rest s k =
    k (Map.insert key value m) (insert-IsSorted key value m s)
write_next-IsSorted (delete key) m rest s k = k (Map.remove key m) (remove-IsSorted key m s)
write_next-IsSorted (delete_range start end) m rest s k = elim (Bool-cases (lt? end start)) [
  | inl e ↦ rw e s
  | inr e ↦
      rw e
        (k _ (remove_all-IsSorted (keys (Map.filter_keys (λ j. le? start j && lt? j end) m)) m s))
]

pub write_ops-IsSorted : (ops : List WriteOp) (m : Data) → IsSorted m → IsSorted (write_ops ops m).0
unfolding write_ops
write_ops-IsSorted [] m s = s
write_ops-IsSorted (op ∷ ops) m s =
    write_next-IsSorted op m (write_ops ops) s (λ m' s'. write_ops-IsSorted ops m' s')
