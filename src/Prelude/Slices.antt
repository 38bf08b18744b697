-- ===== src/Prelude/Slices.antt =====
-- Beginnings and rests of lists.
use Prim.Native.Nat.{ℕ, zero, suc, ◌+◌, ◌-◌, ◌≤◌}
use mathlib.Core.Path.{◌≡◌, refl, sym, ap, subst}
use mathlib.Core.List.{List, [], ◌∷◌, ◌++◌}
use native.Mathlib.Omega.{arith}
use aresadb.Prelude.Lists.{length, take, drop}

module _ {ℓ} {A : Type ℓ} where
  pub take_all : (n : ℕ) (xs : List A) → length xs ≤ n → take n xs ≡ xs
  take_all zero [] h = refl
  take_all (suc n) [] h = refl
  take_all zero (x ∷ xs) h = absurd (omega (arith, h))
  take_all (suc n) (x ∷ xs) h = ap (λ ys. x ∷ ys) (take_all n xs (omega (arith, h)))

  pub take-take : (m n : ℕ) (xs : List A) → m ≤ n → take m (take n xs) ≡ take m xs
  take-take zero n xs h = refl
  take-take (suc m) zero xs h = absurd (omega (arith, h))
  take-take (suc m) (suc n) [] h = refl
  take-take (suc m) (suc n) (x ∷ xs) h = ap (λ ys. x ∷ ys) (take-take m n xs (omega (arith, h)))

  pub take-drop : (n : ℕ) (xs : List A) → take n xs ++ drop n xs ≡ xs
  take-drop zero xs = refl
  take-drop (suc n) [] = refl
  take-drop (suc n) (x ∷ xs) = ap (λ ys. x ∷ ys) (take-drop n xs)

  pub length-take : (n : ℕ) (xs : List A) → length (take n xs) ≤ n
  length-take zero xs = omega arith
  length-take (suc n) [] = omega arith
  length-take (suc n) (x ∷ xs) = omega (arith, length-take n xs)

  pub length-drop : (n : ℕ) (xs : List A) → length (drop n xs) ≡ length xs - n
  length-drop zero xs = omega arith
  length-drop (suc n) [] = omega arith
  length-drop (suc n) (x ∷ xs) = omega (arith, length-drop n xs)

  pub drop_past : (n : ℕ) (xs : List A) → length xs ≤ n → drop n xs ≡ []
  drop_past zero [] h = refl
  drop_past (suc n) [] h = refl
  drop_past zero (x ∷ xs) h = absurd (omega (arith, h))
  drop_past (suc n) (x ∷ xs) h = drop_past n xs (omega (arith, h))

  pub drop_add : (m n k : ℕ) (xs : List A) → k ≡ m + n → drop k xs ≡ drop n (drop m xs)
  drop_add zero n k xs e = ap (λ k. drop k xs) (omega (arith, e))
  drop_add (suc m) n zero xs e = absurd (omega (arith, e))
  drop_add (suc m) n (suc k) [] e = sym (drop_past n [] (omega arith))
  drop_add (suc m) n (suc k) (x ∷ xs) e = drop_add m n k xs (omega (arith, e))

  take_front : (xs ys : List A) → take (length xs) (xs ++ ys) ≡ xs
  take_front [] ys = refl
  take_front (x ∷ xs) ys = ap (λ zs. x ∷ zs) (take_front xs ys)

  drop_front : (xs ys : List A) → drop (length xs) (xs ++ ys) ≡ ys
  drop_front [] ys = refl
  drop_front (x ∷ xs) ys = drop_front xs ys

  pub take_first : (xs ys : List A) (n : ℕ) → length xs ≡ n → take n (xs ++ ys) ≡ xs
  take_first xs ys n e = subst (λ n. take n (xs ++ ys) ≡ xs) e (take_front xs ys)

  pub drop_first : (xs ys : List A) (n : ℕ) → length xs ≡ n → drop n (xs ++ ys) ≡ ys
  drop_first xs ys n e = subst (λ n. drop n (xs ++ ys) ≡ ys) e (drop_front xs ys)
