-- ===== src/Ord.antt =====
-- Rust's `Ord`: a comparison with its laws, for native numbers and for byte strings in the
-- lexicographic order of slices (`Bytes`, `Vec<u8>` and `&[u8]` compare so).
pub mod Nat
pub mod Bytes
use aresadb.Prelude.{
  ℕ, zero, suc, ◌+◌, ◌≤◌, ◌<◌, compare, Ordering, ◌≡◌, ◌≢◌, refl, ap, sym, subst, ◌↔◌, ◌⊎◌, inl,
  inr, Bool, true, false, not, ◌||◌, List, [], ◌∷◌, ◌++◌, arith, Ordering-cases,
}
use aresadb.Prelude.{if◌then◌else◌}
use Prim.Native.Nat.Ordering.{lt, eq, gt}

pub record Ord {ℓ} (K : Type ℓ) : Type ℓ where
  pub cmp : K → K → Ordering
  pub lt_trans : (x y z : K) → cmp x y ≡ lt → cmp y z ≡ lt → cmp x z ≡ lt
  pub gt_of_lt : (x y : K) → cmp x y ≡ lt → cmp y x ≡ gt
  pub eq_of_cmp : (x y : K) → cmp x y ≡ eq → x ≡ y
  pub cmp_refl : (x : K) → cmp x x ≡ eq
  pub lt_of_gt : (x y : K) → cmp x y ≡ gt → cmp y x ≡ lt

abbrev pub is_lt : Ordering → Bool
is_lt lt = true
is_lt _ = false

abbrev pub is_eq : Ordering → Bool
is_eq eq = true
is_eq _ = false

abbrev pub is_gt : Ordering → Bool
is_gt gt = true
is_gt _ = false

-- Boolean tests on any ordered type: `a < b`, `a <= b`, `a == b` of the source.
module _ {ℓ} {K : Type ℓ} ⦃o : Ord K⦄ where
  abbrev pub lt? : K → K → Bool
  lt? a b = is_lt (o.cmp a b)

  abbrev pub le? : K → K → Bool
  le? a b = not (is_gt (o.cmp a b))

  abbrev pub eq? : K → K → Bool
  eq? a b = is_eq (o.cmp a b)

  pub eq?_refl : (a : K) → eq? a a ≡ true
  eq?_refl a = ap is_eq (o.cmp_refl a)

  pub eq?_iff : (a b : K) → (eq? a b ≡ true) ↔ (a ≡ b)
  eq?_iff a b =
      (λ h. o.eq_of_cmp a b (ground arith), λ e. subst (λ x. eq? a x ≡ true) e (eq?_refl a))

  pub eq?_ne : (a b : K) → a ≢ b → eq? a b ≡ false
  eq?_ne a b h = ground (arith, eq?_iff a b)

  pub eq?_comm : (a b : K) → eq? a b ≡ eq? b a
  eq?_comm a b = ground (arith, eq?_iff a b, eq?_iff b a)

  pub lt?_irrefl : (a : K) → lt? a a ≡ false
  lt?_irrefl a = ap is_lt (o.cmp_refl a)

  pub lt?_trans : (a b c : K) → lt? a b ≡ true → lt? b c ≡ true → lt? a c ≡ true
  lt?_trans a b c h k = ground (arith, o.lt_trans a b c)

  -- `a <= b` is the negation of `b < a`.
  pub le?-not-lt? : (a b : K) → le? a b ≡ not (lt? b a)
  le?-not-lt? a b = ground (arith, o.lt_of_gt a b, o.gt_of_lt b a, o.eq_of_cmp a b, o.cmp_refl b)
