-- ===== src/Ord/Bytes.antt =====
-- Byte strings, `Bytes`, `Vec<u8>` and `&[u8]`: lists of numbers, in the lexicographic order of
-- slices.
use aresadb.Prelude.{ℕ, ◌≡◌, refl, compare, Ordering, List, [], ◌∷◌, ◌++◌, arith}
use aresadb.Ord.{Ord}
use aresadb.Ord.Nat.{compare_refl}
use Prim.Native.Nat.Ordering.{lt, eq, gt}

abbrev pub Bytes : Type 0
Bytes = List ℕ

-- The first difference decides; of two strings where one begins with the other, the shorter is less.
abbrev pub and_then : Ordering → Ordering → Ordering
and_then eq c = c
and_then lt c = lt
and_then gt c = gt

abbrev pub cmp_bytes : Bytes → Bytes → Ordering
cmp_bytes [] [] = eq
cmp_bytes [] (y ∷ ys) = lt
cmp_bytes (x ∷ xs) [] = gt
cmp_bytes (x ∷ xs) (y ∷ ys) = and_then (compare x y) (cmp_bytes xs ys)

pub cmp_bytes_refl : (a : Bytes) → cmp_bytes a a ≡ eq
cmp_bytes_refl [] = refl
cmp_bytes_refl (x ∷ xs) = ground (arith, compare_refl x, cmp_bytes_refl xs)

pub eq_of_cmp_bytes : (a b : Bytes) → cmp_bytes a b ≡ eq → a ≡ b
eq_of_cmp_bytes [] [] h = refl
eq_of_cmp_bytes [] (y ∷ ys) h = ground arith
eq_of_cmp_bytes (x ∷ xs) [] h = ground arith
eq_of_cmp_bytes (x ∷ xs) (y ∷ ys) h = ground (arith, eq_of_cmp_bytes xs ys)

pub lt_of_cmp_bytes-gt : (a b : Bytes) → cmp_bytes a b ≡ gt → cmp_bytes b a ≡ lt
lt_of_cmp_bytes-gt [] [] h = ground arith
lt_of_cmp_bytes-gt [] (y ∷ ys) h = ground arith
lt_of_cmp_bytes-gt (x ∷ xs) [] h = refl
lt_of_cmp_bytes-gt (x ∷ xs) (y ∷ ys) h = ground (arith, lt_of_cmp_bytes-gt xs ys)

pub gt_of_cmp_bytes-lt : (a b : Bytes) → cmp_bytes a b ≡ lt → cmp_bytes b a ≡ gt
gt_of_cmp_bytes-lt [] [] h = ground arith
gt_of_cmp_bytes-lt [] (y ∷ ys) h = refl
gt_of_cmp_bytes-lt (x ∷ xs) [] h = ground arith
gt_of_cmp_bytes-lt (x ∷ xs) (y ∷ ys) h = ground (arith, gt_of_cmp_bytes-lt xs ys)

pub cmp_bytes_trans : (a b c : Bytes) → cmp_bytes a b ≡ lt → cmp_bytes b c ≡ lt → cmp_bytes a c ≡ lt
cmp_bytes_trans [] [] c h k = ground arith
cmp_bytes_trans [] (y ∷ ys) [] h k = ground arith
cmp_bytes_trans [] (y ∷ ys) (z ∷ zs) h k = refl
cmp_bytes_trans (x ∷ xs) [] c h k = ground arith
cmp_bytes_trans (x ∷ xs) (y ∷ ys) [] h k = ground arith
cmp_bytes_trans (x ∷ xs) (y ∷ ys) (z ∷ zs) h k = ground (arith, cmp_bytes_trans xs ys zs)

instance abbrev pub bytes_ord : Ord Bytes
bytes_ord = record {
  cmp = cmp_bytes;
  cmp_refl = cmp_bytes_refl;
  eq_of_cmp = eq_of_cmp_bytes;
  lt_of_gt = lt_of_cmp_bytes-gt;
  gt_of_lt = gt_of_cmp_bytes-lt;
  lt_trans = cmp_bytes_trans;
}

-- A common beginning does not count.
pub cmp_bytes-append_left : (p a b : Bytes) → cmp_bytes (p ++ a) (p ++ b) ≡ cmp_bytes a b
cmp_bytes-append_left [] a b = refl
cmp_bytes-append_left (x ∷ p) a b = ground (arith, cmp_bytes-append_left p a b, compare_refl x)
