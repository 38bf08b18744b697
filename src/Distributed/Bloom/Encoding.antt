-- ===== src/Distributed/Bloom/Encoding.antt =====
-- `to_bytes` and `from_bytes` of src/distributed/bloom.rs: three 32-bit numbers and the words, in
-- little-endian order.
pub mod RoundTrip
use native.Mathlib.Numerals.{unary_clauses}
use aresadb.Prelude.{
  ℕ, zero, suc, ◌+◌, ◌*◌, ◌/◌, ◌%◌, ◌^◌, ◌<◌, ◌≡◌, refl, sym, subst, ap, ◌∙◌, false, Option, none,
  some, List, [], ◌∷◌, ◌++◌, length, take, drop, ltb, if◌then◌else◌, All, arith, length-append,
}
use aresadb.Ord.Bytes.{Bytes}
use aresadb.BigEndian.{u64_mod}
use aresadb.Distributed.Bloom.{BloomFilter, num_words}
use aresadb.Distributed.Bloom.Rounds.{IsValid}

abbrev pub u32_mod : ℕ
u32_mod = 2 ^ 32

-- `to_le_bytes` of a number of so many bytes, and `from_le_bytes`.
unfoldable pub to_le_bytes : ℕ → ℕ → Bytes
to_le_bytes zero v = []
to_le_bytes (suc n) v = v % 256 ∷ to_le_bytes n (v / 256)

unfoldable pub from_le_bytes : Bytes → ℕ
from_le_bytes [] = 0
from_le_bytes (b ∷ bytes) = b + from_le_bytes bytes * 256

abbrev pub words_to_bytes : List ℕ → Bytes
words_to_bytes [] = []
words_to_bytes (w ∷ words) = to_le_bytes 8 w ++ words_to_bytes words

-- `as u32` wraps.
unfoldable pub to_bytes : BloomFilter → Bytes
to_bytes f =
    to_le_bytes 4 (f.num_bits % u32_mod)
    ++ (to_le_bytes 4 f.num_hashes ++ (to_le_bytes 4 (f.count % u32_mod) ++ words_to_bytes f.bits))

abbrev pub word_from : ℕ → Bytes → ℕ
word_from start bytes = from_le_bytes (take 8 (drop start bytes))

-- The loop over the words, with those that are left and the word.
abbrev pub read_words : ℕ → ℕ → Bytes → List ℕ
read_words zero i bytes = []
read_words (suc n) i bytes = word_from (12 + i * 8) bytes ∷ read_words n (i + 1) bytes

unfoldable pub from_bytes : Bytes → Option BloomFilter
from_bytes bytes =
    let num_bits = from_le_bytes (take 4 bytes) in
    let filter : BloomFilter = record {
      bits = read_words (num_words num_bits) 0 bytes;
      num_bits = num_bits;
      num_hashes = from_le_bytes (take 4 (drop 4 bytes));
      count = from_le_bytes (take 4 (drop 8 bytes));
    } in
    if ltb (length bytes) 12
    then none
    else (if ltb (length bytes) (12 + num_words num_bits * 8) then none else some filter)
