-- ===== src/Ord/Nat.antt =====
-- The order of `u64` keys and of bytes.
use aresadb.Prelude.{ℕ, ◌≡◌, ◌<◌, true, compare, arith}
use aresadb.Ord.{Ord, lt?}
use Prim.Native.Nat.Ordering.{lt, eq, gt}

pub compare_refl : (a : ℕ) → compare a a ≡ eq
compare_refl a = ground arith

pub eq_of_compare : (a b : ℕ) → compare a b ≡ eq → a ≡ b
eq_of_compare a b h = ground arith

pub lt_of_compare-gt : (a b : ℕ) → compare a b ≡ gt → compare b a ≡ lt
lt_of_compare-gt a b h = ground arith

pub gt_of_compare-lt : (a b : ℕ) → compare a b ≡ lt → compare b a ≡ gt
gt_of_compare-lt a b h = ground arith

pub compare_trans : (a b c : ℕ) → compare a b ≡ lt → compare b c ≡ lt → compare a c ≡ lt
compare_trans a b c h k = ground arith

instance abbrev pub nat_ord : Ord ℕ
nat_ord = record {
  cmp = compare;
  cmp_refl = compare_refl;
  eq_of_cmp = eq_of_compare;
  lt_of_gt = lt_of_compare-gt;
  gt_of_lt = gt_of_compare-lt;
  lt_trans = compare_trans;
}

pub lt_of_lt? : (a b : ℕ) → lt? a b ≡ true → a < b
lt_of_lt? a b h = ground arith
