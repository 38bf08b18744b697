-- ===== src/Core/Memory.antt =====
-- crates/aresadb-core/src/memory.rs: the in-memory engine, a `BTreeMap` and a flag.
pub mod Batch
pub mod Scan
pub mod Views
use aresadb.Prelude.{ℕ, ◌+◌, Bool, true, false, ◌&&◌, Option, List, [], ◌∷◌, length, if◌then◌else◌}
use aresadb.Ord.{lt?, le?}
use aresadb.Ord.Bytes.{Bytes, bytes_ord}
use aresadb.Map
use aresadb.Map.{BTreeMap}
use aresadb.Core.Error.{Outcome, ok, err, panicked, closed, ◌>>=◌, ◌>>◌}
use aresadb.Core.KeyRange.{KeyRange, contains}
use aresadb.Core.WriteBatch.{WriteBatch}
use aresadb.Core.WriteBatch.Op.{WriteOp, put, delete, delete_range}

abbrev pub Data : Type 0
Data = BTreeMap Bytes Bytes

pub record MemoryBackend : Type 0 where
  pub contents : Data
  pub is_closed : Bool

pub record KeyValue : Type 0 where
  pub key : Bytes
  pub value : Bytes

abbrev pub new : MemoryBackend
new = record { contents = []; is_closed = false }

unfoldable pub ensure_open : MemoryBackend → Outcome (Unit {0})
ensure_open b = if b.is_closed then err closed else ok tt

abbrev pub key_values : Data → List KeyValue
key_values [] = []
key_values ((k, v) ∷ m) = record { key = k; value = v } ∷ key_values m

unfoldable pub collect_range : KeyRange → Data → List KeyValue
unfolding Map.filter_keys
collect_range range m = key_values (Map.filter_keys (contains range) m)

unfoldable pub get : MemoryBackend → Bytes → Outcome (Option Bytes)
unfolding ensure_open
get b key = do ensure_open b; ok (Map.get key b.contents)

unfoldable pub scan : MemoryBackend → KeyRange → Outcome (List KeyValue)
unfolding ensure_open collect_range
scan b range = do ensure_open b; ok (collect_range range b.contents)

abbrev pub keys : Data → List Bytes
keys [] = []
keys ((k, v) ∷ m) = k ∷ keys m

-- `for k in keys { data.remove(&k); }`
unfoldable pub remove_all : List Bytes → Data → Data
unfolding Map.remove
remove_all [] m = m
remove_all (k ∷ ks) m = remove_all ks (Map.remove k m)

-- `data.range(start..end)` panics where `start` is greater than `end`, as `BTreeMap::range` is
-- documented to. (A map that never had an entry gives an empty range there instead.)
unfoldable pub write_op : WriteOp → Data → Outcome Data
unfolding remove_all Map.insert Map.filter_keys Map.remove
write_op (put key value) m = ok (Map.insert key value m)
write_op (delete key) m = ok (Map.remove key m)
write_op (delete_range start end) m =
    if lt? end start
    then panicked
    else ok (remove_all (keys (Map.filter_keys (λ k. le? start k && lt? k end) m)) m)

-- The loop of `write_batch`: what was written before a panic stays written, under the released lock.
abbrev pub write_next :
    Outcome Data → Data → (Data → Data × Outcome (Unit {0})) → Data × Outcome (Unit {0})
write_next (ok m') m rest = rest m'
write_next (err e) m rest = (m, err e)
write_next panicked m rest = (m, panicked)

unfoldable pub write_ops : List WriteOp → Data → Data × Outcome (Unit {0})
unfolding write_op
write_ops [] m = (m, ok tt)
write_ops (op ∷ ops) m = write_next (write_op op m) m (write_ops ops)

abbrev pub when_open :
    MemoryBackend
    → Outcome (Unit {0})
    → Data × Outcome (Unit {0})
    → MemoryBackend × Outcome (Unit {0})
when_open b (ok u) r = (record b { contents = r.0 }, r.1)
when_open b (err e) r = (b, err e)
when_open b panicked r = (b, panicked)

unfoldable pub write_batch : MemoryBackend → WriteBatch → MemoryBackend × Outcome (Unit {0})
unfolding ensure_open write_ops
write_batch b batch = when_open b (ensure_open b) (write_ops batch.ops b.contents)

unfoldable pub flush : MemoryBackend → Outcome (Unit {0})
unfolding ensure_open
flush b = do ensure_open b; ok tt

-- A snapshot is a copy of the map.
unfoldable pub snapshot : MemoryBackend → Outcome Data
unfolding ensure_open
snapshot b = do ensure_open b; ok b.contents

abbrev sum_sizes : Data → ℕ
sum_sizes [] = 0
sum_sizes ((k, v) ∷ m) = length k + length v + sum_sizes m

unfoldable pub approximate_size : MemoryBackend → KeyRange → ℕ
unfolding Map.filter_keys
approximate_size b range = sum_sizes (Map.filter_keys (contains range) b.contents)

unfoldable pub close : MemoryBackend → MemoryBackend
close b = record b { is_closed = true }
