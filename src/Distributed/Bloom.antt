-- ===== src/Distributed/Bloom.antt =====
-- src/distributed/bloom.rs: BloomFilter. The 128 bits of the SipHash of an item are a parameter, as
-- two numbers. A result none is a panic: an index out of range, a remainder by zero or a failed
-- assertion.
pub mod Words
pub mod Rounds
pub mod Members
pub mod Encoding
use aresadb.Prelude.{
  ℕ, zero, suc, ◌+◌, ◌*◌, ◌/◌, ◌%◌, Bool, true, false, Option, none, some, List, [], ◌∷◌, ◌==◌,
  length, if◌then◌else◌,
}
use aresadb.Ord.Bytes.{Bytes}
use aresadb.BigEndian.{u64_mod}
use aresadb.Bits.{word_or, one_at, test_bit}

pub record BloomFilter : Type 0 where
  pub bits : List ℕ
  pub num_bits : ℕ
  pub num_hashes : ℕ
  pub count : ℕ

infixl 5 ◌>>=◌
abbrev pub ◌>>=◌ {ℓ κ} : {A : Type ℓ} {B : Type κ} → Option A → (A → Option B) → Option B
none >>= f = none
some a >>= f = f a

-- `vec![0; n]`
abbrev pub zeros : ℕ → List ℕ
zeros zero = []
zeros (suc n) = 0 ∷ zeros n

-- `num_bits.div_ceil(64)`
abbrev pub num_words : ℕ → ℕ
num_words num_bits = (num_bits + 63) / 64

unfoldable pub with_params : ℕ → ℕ → BloomFilter
with_params num_bits num_hashes = record {
  bits = zeros (num_words num_bits);
  num_bits = num_bits;
  num_hashes = num_hashes;
  count = 0;
}

-- Double hashing, `h1 + i * h2` in 64 bits.
unfoldable pub get_bit_index : BloomFilter → ℕ × ℕ → ℕ → Option ℕ
get_bit_index f (h1, h2) i =
    if f.num_bits == 0 then none else some ((h1 + i * h2 % u64_mod) % u64_mod % f.num_bits)

-- `bits[n] |= word`
unfoldable pub or_word : ℕ → ℕ → List ℕ → Option (List ℕ)
or_word n word [] = none
or_word zero word (w ∷ words) = some (word_or w word ∷ words)
or_word (suc n) word (w ∷ words) = do words ← or_word n word words; some (w ∷ words)

unfoldable pub set_bit : ℕ → List ℕ → Option (List ℕ)
unfolding or_word
set_bit idx bits = or_word (idx / 64) (one_at (idx % 64)) bits

unfoldable pub word_at : ℕ → List ℕ → Option ℕ
word_at n [] = none
word_at zero (w ∷ words) = some w
word_at (suc n) (w ∷ words) = word_at n words

unfoldable pub get_bit : ℕ → List ℕ → Option Bool
unfolding word_at test_bit
get_bit idx bits = do word ← word_at (idx / 64) bits; some (test_bit word (idx % 64))

-- The loops `for i in 0..num_hashes`, with the rounds that are left and the round.
abbrev pub insert_rounds : ℕ → ℕ → BloomFilter → ℕ × ℕ → List ℕ → Option (List ℕ)
insert_rounds zero i f h bits = some bits
insert_rounds (suc n) i f h bits = do
  idx ← get_bit_index f h i
  bits ← set_bit idx bits
  insert_rounds n (i + 1) f h bits

abbrev pub contain_rounds : ℕ → ℕ → BloomFilter → ℕ × ℕ → List ℕ → Option Bool
contain_rounds zero i f h bits = some true
contain_rounds (suc n) i f h bits = do
  idx ← get_bit_index f h i
  bit ← get_bit idx bits
  let rest = contain_rounds n (i + 1) f h bits in if bit then rest else some false

abbrev pub or_words : List ℕ → List ℕ → List ℕ
or_words [] words = []
or_words (w ∷ words) [] = w ∷ words
or_words (w ∷ words) (v ∷ others) = word_or w v ∷ or_words words others

unfoldable pub clear : BloomFilter → BloomFilter
clear f = record f { bits = zeros (length f.bits); count = 0 }

-- The counts are sums of a `usize`, which wrap.
unfoldable pub merge : BloomFilter → BloomFilter → Option BloomFilter
merge f other =
    let merged = record f {
      bits = or_words f.bits other.bits;
      count = (f.count + other.count) % u64_mod;
    } in
    if f.num_bits == other.num_bits
    then (if f.num_hashes == other.num_hashes then some merged else none)
    else none

unfoldable pub memory_usage : BloomFilter → ℕ
memory_usage f = length f.bits * 8

module _ (hash_pair : Bytes → ℕ × ℕ) where
  unfoldable pub insert : BloomFilter → Bytes → Option BloomFilter
  insert f item = do
    bits ← insert_rounds f.num_hashes 0 f (hash_pair item) f.bits
    some (record f { bits = bits; count = (f.count + 1) % u64_mod })

  unfoldable pub may_contain : BloomFilter → Bytes → Option Bool
  may_contain f item = contain_rounds f.num_hashes 0 f (hash_pair item) f.bits
