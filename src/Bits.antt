-- ===== src/Bits.antt =====
-- Machine words as natural numbers: `w | v`, `1 << i` and the test `(w >> i) & 1 == 1`.
pub mod Laws
use Prim.Native.Nat.{bit_or}
use aresadb.Prelude.{ℕ, ◌/◌, ◌%◌, ◌^◌, Bool, ◌==◌}

abbrev pub word_or : ℕ → ℕ → ℕ
word_or a b = bit_or a b

abbrev pub one_at : ℕ → ℕ
one_at i = 2 ^ i

unfoldable pub test_bit : ℕ → ℕ → Bool
test_bit w i = w / 2 ^ i % 2 == 1
