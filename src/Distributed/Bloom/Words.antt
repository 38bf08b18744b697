-- ===== src/Distributed/Bloom/Words.antt =====
-- Setting and reading bits of a list of words.
use aresadb.Prelude.{
  ℕ, zero, suc, ◌/◌, ◌%◌, ◌<◌, ◌≡◌, refl, ap, ◌∙◌, Bool, true, false, ◌||◌, ◌&&◌, some, List, [],
  ◌∷◌, ◌==◌, length, arith,
}
use aresadb.Bits.{word_or, one_at, test_bit}
use aresadb.Bits.Laws.{test_bit-word_or, test_bit-one_at}
use aresadb.Distributed.Bloom.{or_word, set_bit, word_at, get_bit, or_words, zeros}

-- Reading past the end is a panic for the source, and false here.
pub is_set : ℕ → ℕ → List ℕ → Bool
is_set n i [] = false
is_set zero i (w ∷ words) = test_bit w i
is_set (suc n) i (w ∷ words) = is_set n i words

-- What is set in the tail is set one word further.
after_head :
    (n word w : ℕ) (words words' : List ℕ)
    → ((m i : ℕ) → is_set m i words' ≡ (is_set m i words || (n == m && test_bit word i)))
    → (m i : ℕ)
    → is_set m i (w ∷ words') ≡ (is_set m i (w ∷ words) || (suc n == m && test_bit word i))
unfolding is_set
after_head n word w words words' r zero i = ground arith
after_head n word w words words' r (suc m) i = r m i ∙ ground arith

pub or_word_lem :
    (n word : ℕ) (words : List ℕ)
    → n < length words
    → (words' : List ℕ) × (or_word n word words ≡ some words')
      × (length words' ≡ length words)
      × ((m i : ℕ) → is_set m i words' ≡ (is_set m i words || (n == m && test_bit word i)))
unfolding or_word is_set
or_word_lem n word [] h = absurd (omega arith)
or_word_lem zero word (w ∷ words) h = (word_or w word ∷ words, refl, refl, reads)
  where
    reads :
        (m i : ℕ)
        → is_set m i (word_or w word ∷ words)
          ≡ (is_set m i (w ∷ words) || (0 == m && test_bit word i))
    reads zero i = test_bit-word_or w word i
    reads (suc m) i = ground arith
or_word_lem (suc n) word (w ∷ words) h =
    let (words', e, l, r) = or_word_lem n word words (omega arith) in
    (w ∷ words', rw e refl, ap suc l, after_head n word w words words' r)

pub word_at_lem :
    (n i : ℕ) (words : List ℕ)
    → n < length words
    → (w : ℕ) × (word_at n words ≡ some w) × (test_bit w i ≡ is_set n i words)
unfolding word_at is_set
word_at_lem n i [] h = absurd (omega arith)
word_at_lem zero i (w ∷ words) h = (w, refl, refl)
word_at_lem (suc n) i (w ∷ words) h = word_at_lem n i words (omega arith)

pub is_set-or_words :
    (n i : ℕ) (words others : List ℕ)
    → length words ≡ length others
    → is_set n i (or_words words others) ≡ (is_set n i words || is_set n i others)
unfolding is_set
is_set-or_words n i [] [] h = refl
is_set-or_words n i [] (v ∷ others) h = absurd (omega arith)
is_set-or_words n i (w ∷ words) [] h = absurd (omega arith)
is_set-or_words zero i (w ∷ words) (v ∷ others) h = test_bit-word_or w v i
is_set-or_words (suc n) i (w ∷ words) (v ∷ others) h =
    is_set-or_words n i words others (omega arith)

pub length-or_words : (words others : List ℕ) → length (or_words words others) ≡ length words
length-or_words [] others = refl
length-or_words (w ∷ words) [] = refl
length-or_words (w ∷ words) (v ∷ others) = ap suc (length-or_words words others)

pub length-zeros : (n : ℕ) → length (zeros n) ≡ n
length-zeros zero = refl
length-zeros (suc n) = ap suc (length-zeros n)

-- The bit at an index that lies within the words.
abbrev pub bit : ℕ → List ℕ → Bool
bit idx bits = is_set (idx / 64) (idx % 64) bits

pub get_bit_lem :
    (idx : ℕ) (bits : List ℕ) → idx / 64 < length bits → get_bit idx bits ≡ some (bit idx bits)
unfolding get_bit
get_bit_lem idx bits h = let (w, e, r) = word_at_lem (idx / 64) (idx % 64) bits h in rw (e, r) refl

pub set_bit_lem :
    (idx : ℕ) (bits : List ℕ)
    → idx / 64 < length bits
    → (bits' : List ℕ) × (set_bit idx bits ≡ some bits')
      × (length bits' ≡ length bits)
      × (bit idx bits' ≡ true)
      × ((m i : ℕ) → is_set m i bits ≡ true → is_set m i bits' ≡ true)
unfolding set_bit
set_bit_lem idx bits h =
    let (bits', e, l, r) = or_word_lem (idx / 64) (one_at (idx % 64)) bits h in
    (
      bits',
      e,
      l,
      ground (arith, r (idx / 64) (idx % 64), test_bit-one_at (idx % 64) (idx % 64)),
      λ m i s. ground (arith, r m i),
    )
