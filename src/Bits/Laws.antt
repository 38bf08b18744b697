-- ===== src/Bits/Laws.antt =====
-- Which bits of a word are set.
use Prim.Native.Nat.{bit_or-bitwise, digits}
use aresadb.Prelude.{
  ℕ, zero, suc, ◌+◌, ◌*◌, ◌/◌, ◌%◌, ◌^◌, ◌≤◌, ◌<◌, max, ◌≡◌, refl, ap, ◌∙◌, false, ◌||◌, ◌==◌,
  if◌then◌else◌, arith,
}
use native.Mathlib.Numerals.{unary_clauses}
use native.Mathlib.Nat.{div-div-eq-div-mul}
use aresadb.Bits.{word_or, one_at, test_bit}

abbrev or_digits : ℕ → ℕ → ℕ → ℕ
or_digits n a b = digits (λ b. b) max n a b

or_digits_enough : (n m a b : ℕ) → a ≤ n → a ≤ m → or_digits n a b ≡ or_digits m a b
or_digits_enough zero zero a b p q = refl
or_digits_enough zero (suc m) zero b p q = refl
or_digits_enough zero (suc m) (suc a) b p q = absurd (omega arith)
or_digits_enough (suc n) zero zero b p q = refl
or_digits_enough (suc n) zero (suc a) b p q = absurd (omega arith)
or_digits_enough (suc n) (suc m) zero b p q = refl
or_digits_enough (suc n) (suc m) (suc a) b p q =
    omega (arith, or_digits_enough n m (suc a / 2) (b / 2) (omega arith) (omega arith))

zero-word_or : (b : ℕ) → word_or 0 b ≡ b
zero-word_or b = bit_or-bitwise 0 b

word_or_step : (a b : ℕ) → word_or a b ≡ word_or (a / 2) (b / 2) * 2 + max (a % 2) (b % 2)
word_or_step zero b = omega (arith, zero-word_or b, zero-word_or (b / 2))
word_or_step (suc a) b = omega (
  arith,
  bit_or-bitwise (suc a) b,
  bit_or-bitwise (suc a / 2) (b / 2),
  or_digits_enough a (suc a / 2) (suc a / 2) (b / 2) (omega arith) (omega arith),
)

-- The digit at a position, by steps of one.
abbrev digit : ℕ → ℕ → ℕ
digit zero a = a % 2
digit (suc n) a = digit n (a / 2)

digit-word_or : (n a b : ℕ) → digit n (word_or a b) ≡ max (digit n a) (digit n b)
digit-word_or zero a b = omega (arith, word_or_step a b)
digit-word_or (suc n) a b =
    let half : word_or a b / 2 ≡ word_or (a / 2) (b / 2) = omega (arith, word_or_step a b) in
    rw half (digit-word_or n (a / 2) (b / 2))

digit_small : (n a : ℕ) → digit n a < 2
digit_small zero a = omega arith
digit_small (suc n) a = digit_small n (a / 2)

digit-zero : (n : ℕ) → digit n 0 ≡ 0
digit-zero zero = refl
digit-zero (suc n) = digit-zero n

pow_succ : (i : ℕ) → 2 ^ suc i ≡ 2 ^ i * 2
pow_succ i = simp unary_clauses

pow_pos : (i : ℕ) → 0 < 2 ^ i
pow_pos zero = omega arith
pow_pos (suc i) = omega (arith, pow_pos i, pow_succ i)

digit-one_at : (n i : ℕ) → digit n (one_at i) ≡ (if i == n then 1 else 0)
digit-one_at zero zero = refl
digit-one_at zero (suc i) = ground (arith, pow_succ i)
digit-one_at (suc n) zero = digit-zero n ∙ ground arith
digit-one_at (suc n) (suc i) =
    let half : 2 ^ suc i / 2 ≡ 2 ^ i = omega (arith, pow_succ i) in
    rw half (digit-one_at n i ∙ ground arith)

digit_lem : (n a : ℕ) → digit n a ≡ a / 2 ^ n % 2
digit_lem zero a = omega arith
digit_lem (suc n) a =
    let shift : a / 2 / 2 ^ n ≡ a / 2 ^ suc n =
      div-div-eq-div-mul a 2 (2 ^ n) ∙ ap (λ m. a / m) (omega (arith, pow_succ n)) in
    digit_lem n (a / 2) ∙ ap (λ q. q % 2) shift

-- The bits of a union are those of both words.
pub test_bit-word_or : (a b i : ℕ) → test_bit (word_or a b) i ≡ (test_bit a i || test_bit b i)
unfolding test_bit
test_bit-word_or a b i = ground (
  arith,
  digit-word_or i a b,
  digit_lem i a,
  digit_lem i b,
  digit_lem i (word_or a b),
  digit_small i a,
  digit_small i b,
)

pub test_bit-one_at : (i j : ℕ) → test_bit (one_at i) j ≡ (i == j)
unfolding test_bit
test_bit-one_at i j = ground (arith, digit-one_at j i, digit_lem j (one_at i))

pub test_bit-zero : (i : ℕ) → test_bit 0 i ≡ false
unfolding test_bit
test_bit-zero i = ground (arith, digit-zero i, digit_lem i 0)
