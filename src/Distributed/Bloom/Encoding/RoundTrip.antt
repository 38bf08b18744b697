-- ===== src/Distributed/Bloom/Encoding/RoundTrip.antt =====
-- Reading back what `to_bytes` wrote.
use native.Mathlib.Numerals.{unary_clauses}
use aresadb.Prelude.{
  ℕ, zero, suc, ◌+◌, ◌*◌, ◌/◌, ◌%◌, ◌^◌, ◌<◌, ◌≡◌, refl, subst, ap, ◌∙◌, false, some, List, [], ◌∷◌,
  ◌++◌, length, take, drop, ltb, All, arith, length-append, take_first, drop_first, drop_add,
}
use aresadb.Ord.Bytes.{Bytes}
use aresadb.BigEndian.{u64_mod}
use aresadb.Distributed.Bloom.{BloomFilter, num_words}
use aresadb.Distributed.Bloom.Encoding.{
  u32_mod, to_le_bytes, from_le_bytes, words_to_bytes, to_bytes, word_from, read_words, from_bytes,
}

pow_succ : (n : ℕ) → 256 ^ suc n ≡ 256 ^ n * 256
pow_succ n = simp unary_clauses

from_le_bytes-to_le_bytes : (n v : ℕ) → v < 256 ^ n → from_le_bytes (to_le_bytes n v) ≡ v
unfolding to_le_bytes from_le_bytes
from_le_bytes-to_le_bytes zero v h = omega arith
from_le_bytes-to_le_bytes (suc n) v h =
    omega (arith, from_le_bytes-to_le_bytes n (v / 256) (omega (arith, h, pow_succ n)))

length-to_le_bytes : (n v : ℕ) → length (to_le_bytes n v) ≡ n
unfolding to_le_bytes
length-to_le_bytes zero v = refl
length-to_le_bytes (suc n) v = ap suc (length-to_le_bytes n (v / 256))

read_words-words_to_bytes :
    (words : List ℕ) (i : ℕ) (bytes : Bytes)
    → All (λ w. w < u64_mod) words
    → drop (12 + i * 8) bytes ≡ words_to_bytes words
    → read_words (length words) i bytes ≡ words
read_words-words_to_bytes [] i bytes small e = refl
read_words-words_to_bytes (w ∷ words) i bytes small e =
    let x = to_le_bytes 8 w in
    let rest = words_to_bytes words in
    let first : word_from (12 + i * 8) bytes ≡ w =
      ap (λ y. from_le_bytes (take 8 y)) e
      ∙ ap from_le_bytes (take_first x rest 8 (length-to_le_bytes 8 w))
      ∙ from_le_bytes-to_le_bytes 8 w small.0 in
    let next : drop (12 + (i + 1) * 8) bytes ≡ rest =
      drop_add (12 + i * 8) 8 (12 + (i + 1) * 8) bytes (omega arith)
      ∙ ap (drop 8) e
      ∙ drop_first x rest 8 (length-to_le_bytes 8 w) in
    rw (first, read_words-words_to_bytes words (i + 1) bytes small.1 next) refl

length-words_to_bytes : (words : List ℕ) → length (words_to_bytes words) ≡ length words * 8
length-words_to_bytes [] = refl
length-words_to_bytes (w ∷ words) = omega (
  arith,
  length-append (to_le_bytes 8 w) (words_to_bytes words),
  length-to_le_bytes 8 w,
  length-words_to_bytes words,
)

-- The fields fit their types, and the number of bits fits the 32 bits that it is written in.
pub record Fits (f : BloomFilter) : Type 0 where
  pub num_bits : f.num_bits < u32_mod
  pub num_hashes : f.num_hashes < u32_mod
  pub words : All (λ w. w < u64_mod) f.bits

-- The three numbers and what follows them.
header-parts :
    (a b c : ℕ) (rest : Bytes)
    → a < u32_mod
    → b < u32_mod
    → c < u32_mod
    → let bytes = to_le_bytes 4 a ++ (to_le_bytes 4 b ++ (to_le_bytes 4 c ++ rest)) in
      (from_le_bytes (take 4 bytes) ≡ a)
      × (from_le_bytes (take 4 (drop 4 bytes)) ≡ b)
      × (from_le_bytes (take 4 (drop 8 bytes)) ≡ c)
      × (drop 12 bytes ≡ rest)
      × (length bytes ≡ 12 + length rest)
header-parts a b c rest ha hb hc =
    let x = to_le_bytes 4 a in
    let y = to_le_bytes 4 b in
    let z = to_le_bytes 4 c in
    let bytes = x ++ (y ++ (z ++ rest)) in
    let d4 : drop 4 bytes ≡ y ++ (z ++ rest) =
      drop_first x (y ++ (z ++ rest)) 4 (length-to_le_bytes 4 a) in
    let d8 : drop 8 bytes ≡ z ++ rest =
      drop_add 4 4 8 bytes refl
      ∙ ap (drop 4) d4
      ∙ drop_first y (z ++ rest) 4 (length-to_le_bytes 4 b) in
    let d12 : drop 12 bytes ≡ rest =
      drop_add 8 4 12 bytes refl ∙ ap (drop 4) d8 ∙ drop_first z rest 4 (length-to_le_bytes 4 c) in
    (
      ap from_le_bytes (take_first x (y ++ (z ++ rest)) 4 (length-to_le_bytes 4 a))
          ∙ from_le_bytes-to_le_bytes 4 a ha,
      ap (λ q. from_le_bytes (take 4 q)) d4
          ∙ ap from_le_bytes (take_first y (z ++ rest) 4 (length-to_le_bytes 4 b))
          ∙ from_le_bytes-to_le_bytes 4 b hb,
      ap (λ q. from_le_bytes (take 4 q)) d8
          ∙ ap from_le_bytes (take_first z rest 4 (length-to_le_bytes 4 c))
          ∙ from_le_bytes-to_le_bytes 4 c hc,
      d12,
      omega (
        arith,
        length-append x (y ++ (z ++ rest)),
        length-append y (z ++ rest),
        length-append z rest,
        length-to_le_bytes 4 a,
        length-to_le_bytes 4 b,
        length-to_le_bytes 4 c,
      ),
    )

-- Bytes long enough for the words that their first number asks for are a filter.
from_bytes_lem :
    (bytes : Bytes) (a b c : ℕ) (words : List ℕ)
    → from_le_bytes (take 4 bytes) ≡ a
    → from_le_bytes (take 4 (drop 4 bytes)) ≡ b
    → from_le_bytes (take 4 (drop 8 bytes)) ≡ c
    → length bytes ≡ 12 + num_words a * 8
    → read_words (num_words a) 0 bytes ≡ words
    → from_bytes bytes ≡ some (record { bits = words; num_bits = a; num_hashes = b; count = c })
unfolding from_bytes
from_bytes_lem bytes a b c words ha hb hc l w =
    let long : ltb (length bytes) 12 ≡ false = ground (arith, l) in
    let enough : ltb (length bytes) (12 + num_words a * 8) ≡ false = ground (arith, l) in
    rw (long, ha, hb, hc, enough, w) refl

-- A filter read back from its bytes is that filter, but for a count of 2 ^ 32 or more, which wraps.
-- The filter has as many words as its bits need, its number of bits is below 2 ^ 32, which may be
-- zero, its number of hashes is a `u32` and its words are `u64`s.
pub from_bytes-to_bytes :
    (f : BloomFilter)
    → length f.bits ≡ num_words f.num_bits
    → Fits f
    → from_bytes (to_bytes f) ≡ some (record f { count = f.count % u32_mod })
unfolding to_bytes
from_bytes-to_bytes f v u =
    let a = f.num_bits % u32_mod in
    let c = f.count % u32_mod in
    let fits : a ≡ f.num_bits = omega (arith, u.num_bits) in
    let rest = words_to_bytes f.bits in
    let bytes = to_le_bytes 4 a ++ (to_le_bytes 4 f.num_hashes ++ (to_le_bytes 4 c ++ rest)) in
    let (ra, rb, rc, d, l) =
      header-parts a f.num_hashes c rest (omega arith) u.num_hashes (omega arith) in
    let words : read_words (num_words f.num_bits) 0 bytes ≡ f.bits =
      subst (λ n. read_words n 0 bytes ≡ f.bits) v
        (read_words-words_to_bytes f.bits 0 bytes u.words d) in
    from_bytes_lem bytes f.num_bits f.num_hashes c f.bits (ra ∙ fits) rb rc
      (omega (arith, l, length-words_to_bytes f.bits, v)) words
