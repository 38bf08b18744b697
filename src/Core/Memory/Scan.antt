-- ===== src/Core/Memory/Scan.antt =====
-- What a scan yields, and what the size estimate counts.
use aresadb.Prelude.{
  ℕ, length, ◌+◌, ◌≡◌, refl, ap, Bool, true, false, none, List, [], ◌∷◌, if◌then◌else◌, arith,
  Bool-cases, inl, inr, ◌⊎◌,
}
use aresadb.Ord.{lt?, le?}
use aresadb.Ord.Bytes.{Bytes, bytes_ord}
use aresadb.Span.{is_empty, before_end, in_span, in_span-left, in_span-right}
use aresadb.Map
use aresadb.Map.{BTreeMap, IsSorted}
use aresadb.Map.Laws.{get-filter_keys}
use aresadb.Map.Sorted.{filter_keys-IsSorted}
use aresadb.Core.Error.{ok}
use aresadb.Core.KeyRange.{KeyRange, contains}
use aresadb.Core.Memory.{
  MemoryBackend, KeyValue, Data, key_values, collect_range, scan, approximate_size, sum_sizes,
}

abbrev pub entries : List KeyValue → Data
entries [] = []
entries (kv ∷ l) = (kv.key, kv.value) ∷ entries l

entries-key_values : (m : Data) → entries (key_values m) ≡ m
entries-key_values [] = refl
entries-key_values ((k, v) ∷ m) = ap (λ (r : Data). (k, v) ∷ r) (entries-key_values m)

-- A scan of an open engine with sorted contents yields, in ascending key order, exactly the keys
-- from the start of the range on and below its end, which an empty end does not bound, each with the
-- value that a lookup has.
pub scan-exact :
    (b : MemoryBackend) (range : KeyRange)
    → b.is_closed ≡ false
    → IsSorted b.contents
    → (l : List KeyValue) × (scan b range ≡ ok l)
      × IsSorted (entries l)
      × ((k : Bytes)
          → Map.get k (entries l)
            ≡ (if in_span range.start range.end k then Map.get k b.contents else none))
unfolding scan contains
scan-exact b range o s = (
  collect_range range b.contents,
  simp o,
  rw entries-key_values (filter_keys-IsSorted (contains range) b.contents s),
  λ k. rw entries-key_values (get-filter_keys (contains range) k b.contents),
)

-- The bytes of the keys and the values of a scan.
abbrev pub bytes_of : List KeyValue → ℕ
bytes_of [] = 0
bytes_of (kv ∷ l) = length kv.key + length kv.value + bytes_of l

sum_sizes-split :
    (p q r : Bytes → Bool) (m : Data)
    → ((k : Bytes) → ((p k ≡ q k) × (r k ≡ false)) ⊎ ((p k ≡ r k) × (q k ≡ false)))
    → sum_sizes (Map.filter_keys p m)
      ≡ sum_sizes (Map.filter_keys q m) + sum_sizes (Map.filter_keys r m)
unfolding Map.filter_keys
sum_sizes-split p q r [] h = omega arith
sum_sizes-split p q r ((k, v) ∷ m) h = ground (arith, h k, sum_sizes-split p q r m h)

-- The estimate of a range is the sum of those of the two ranges into which a key cuts it.
pub approximate_size-split :
    (b : MemoryBackend) (start mid end : Bytes)
    → le? start mid ≡ true
    → is_empty mid ≡ false
    → before_end end mid ≡ true
    → approximate_size b (record { start = start; end = end })
      ≡ approximate_size b (record { start = start; end = mid })
        + approximate_size b (record { start = mid; end = end })
unfolding approximate_size contains
approximate_size-split b start mid end s e l =
    sum_sizes-split (in_span start end) (in_span start mid) (in_span mid end) b.contents cut
  where
    cut :
        (k : Bytes)
        → ((in_span start end k ≡ in_span start mid k) × (in_span mid end k ≡ false))
          ⊎ ((in_span start end k ≡ in_span mid end k) × (in_span start mid k ≡ false))
    cut k = elim (Bool-cases (lt? k mid)) [
      | inl h ↦ inl (in_span-left start mid end k l h)
      | inr h ↦ inr (in_span-right start mid end k s e h)
    ]
