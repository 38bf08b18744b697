-- ===== src/Distributed/Tests.antt =====
-- Runs of the Bloom filter and the theorems at concrete inputs.
use aresadb.Prelude.{◌+◌, ◌^◌, ℕ, ◌≡◌, refl, true, some, [], ◌∷◌, All, length, arith}
use aresadb.Ord.Bytes.{Bytes}
use aresadb.Distributed.Bloom.{BloomFilter, with_params, insert, may_contain}
use aresadb.Distributed.Bloom.Encoding.{to_bytes, from_bytes}
use aresadb.Distributed.Bloom.Encoding.RoundTrip.{from_bytes-to_bytes}
use aresadb.Distributed.Bloom.Members.{Holding, made, may_contain-Holding}

-- A poor hash: the length of an item, and an odd step.
abbrev by_length : Bytes → ℕ × ℕ
by_length item = (length item, 61)

abbrev empty : BloomFilter
empty = with_params 100 3

abbrev abc : Bytes
abc = b'a' ∷ b'b' ∷ b'c' ∷ []

abbrev taken :
    (f : BloomFilter) × (insert by_length empty abc ≡ some f) × Holding by_length f (abc ∷ [])
taken = (may_contain-Holding by_length empty [] (made 100 3 (omega arith))).1 abc

may_contain-Holding_example :
    All (λ item. may_contain by_length taken.0 item ≡ some true) (abc ∷ [])
    × ((item : Bytes)
        → (f : BloomFilter) × (insert by_length taken.0 item ≡ some f)
          × Holding by_length f (item ∷ abc ∷ []))
may_contain-Holding_example = may_contain-Holding by_length taken.0 (abc ∷ []) taken.2

abbrev small : BloomFilter
small = record { bits = 5 ∷ 2 ^ 63 ∷ []; num_bits = 100; num_hashes = 3; count = 2 ^ 32 + 7 }

from_bytes-to_bytes_example : from_bytes (to_bytes small) ≡ some (record small { count = 7 })
from_bytes-to_bytes_example = from_bytes-to_bytes small refl (record {
  num_bits = omega arith;
  num_hashes = omega arith;
  words = (omega arith, (omega arith, tt));
})
