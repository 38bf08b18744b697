-- ===== src/Distributed/Bloom/Rounds.antt =====
-- The loops of a Bloom filter over its hashes.
use aresadb.Prelude.{
  ℕ, zero, suc, ◌+◌, ◌*◌, ◌/◌, ◌%◌, ◌<◌, ◌≡◌, refl, ap, ◌∙◌, true, false, none, some, List, ◌==◌,
  length, if◌then◌else◌, arith,
}
use aresadb.BigEndian.{u64_mod}
use aresadb.Distributed.Bloom.{BloomFilter, num_words, get_bit_index, insert_rounds, contain_rounds}
use aresadb.Distributed.Bloom.Words.{is_set, bit, get_bit_lem, set_bit_lem}

-- There is a bit, and as many words as the bits need.
pub record IsValid (f : BloomFilter) : Type 0 where
  pub some_bits : 0 < f.num_bits
  pub words : length f.bits ≡ num_words f.num_bits

abbrev pub Grows : List ℕ → List ℕ → Type 0
Grows bits bits' = (m i : ℕ) → is_set m i bits ≡ true → is_set m i bits' ≡ true

index_lem :
    (f : BloomFilter) (h : ℕ × ℕ) (i : ℕ)
    → 0 < f.num_bits
    → (idx : ℕ) × (get_bit_index f h i ≡ some idx) × (idx / 64 < num_words f.num_bits)
unfolding get_bit_index
index_lem f (h1, h2) i p =
    let hash = (h1 + i * h2 % u64_mod) % u64_mod in (hash % f.num_bits, ground arith, omega arith)

contain_step :
    (n i idx : ℕ) (f : BloomFilter) (h : ℕ × ℕ) (bits : List ℕ)
    → get_bit_index f h i ≡ some idx
    → idx / 64 < num_words f.num_bits
    → length bits ≡ num_words f.num_bits
    → contain_rounds (suc n) i f h bits
      ≡ (if bit idx bits then contain_rounds n (i + 1) f h bits else some false)
contain_step n i idx f h bits e b l = rw (e, get_bit_lem idx bits (omega arith)) refl

pub contain_rounds-Grows :
    (n i : ℕ) (f : BloomFilter) (h : ℕ × ℕ) (bits bits' : List ℕ)
    → 0 < f.num_bits
    → length bits ≡ num_words f.num_bits
    → length bits' ≡ num_words f.num_bits
    → Grows bits bits'
    → contain_rounds n i f h bits ≡ some true
    → contain_rounds n i f h bits' ≡ some true
contain_rounds-Grows zero i f h bits bits' p l k g c = refl
contain_rounds-Grows (suc n) i f h bits bits' p l k g c =
    let (idx, e, b) = index_lem f h i p in
    ground (
      arith,
      contain_step n i idx f h bits e b l,
      contain_step n i idx f h bits' e b k,
      g (idx / 64) (idx % 64),
      contain_rounds-Grows n (i + 1) f h bits bits' p l k g,
    )

-- The rounds read the filter's number of bits alone.
get_bit_index-same :
    (i : ℕ) (f g : BloomFilter) (h : ℕ × ℕ)
    → f.num_bits ≡ g.num_bits
    → get_bit_index f h i ≡ get_bit_index g h i
unfolding get_bit_index
get_bit_index-same i f g (h1, h2) e =
    ap (λ n. if n == 0 then none else some ((h1 + i * h2 % u64_mod) % u64_mod % n)) e

pub contain_rounds-same :
    (n i : ℕ) (f g : BloomFilter) (h : ℕ × ℕ) (bits : List ℕ)
    → f.num_bits ≡ g.num_bits
    → contain_rounds n i f h bits ≡ contain_rounds n i g h bits
contain_rounds-same zero i f g h bits e = refl
contain_rounds-same (suc n) i f g h bits e =
    rw (get_bit_index-same i f g h e, contain_rounds-same n (i + 1) f g h bits e) refl

-- The rounds of an insertion end, and those of a lookup find what they set.
pub insert_rounds_lem :
    (n i : ℕ) (f : BloomFilter) (h : ℕ × ℕ) (bits : List ℕ)
    → 0 < f.num_bits
    → length bits ≡ num_words f.num_bits
    → (bits' : List ℕ) × (insert_rounds n i f h bits ≡ some bits')
      × (length bits' ≡ num_words f.num_bits)
      × Grows bits bits'
      × (contain_rounds n i f h bits' ≡ some true)
insert_rounds_lem zero i f h bits p l = (bits, refl, l, (λ m j s. s), refl)
insert_rounds_lem (suc n) i f h bits p l =
    let (idx, e, b) = index_lem f h i p in
    let (bits1, e1, l1, set, g1) = set_bit_lem idx bits (omega arith) in
    let (bits2, e2, l2, g2, c2) = insert_rounds_lem n (i + 1) f h bits1 p (l1 ∙ l) in
    let kept : bit idx bits2 ≡ true = g2 (idx / 64) (idx % 64) set in
    (
      bits2,
      rw (e, e1) e2,
      l2,
      (λ m j s. g2 m j (g1 m j s)),
      contain_step n i idx f h bits2 e b l2 ∙ rw kept c2,
    )
