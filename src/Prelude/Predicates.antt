-- ===== src/Prelude/Predicates.antt =====
-- Predicates on lists by recursion into a universe.
use mathlib.Core.List.{List, [], ◌∷◌, ◌++◌}

module _ {ℓ κ} {A : Type ℓ} where
  abbrev pub All : (A → Type κ) → List A → Type κ
  All P [] = Unit
  All P (x ∷ xs) = P x × All P xs

  pub All-append : (P : A → Type κ) (xs ys : List A) → All P xs → All P ys → All P (xs ++ ys)
  All-append P [] ys hx hy = hy
  All-append P (x ∷ xs) ys hx hy = (hx.0, All-append P xs ys hx.1 hy)

  pub All-mono : (P Q : A → Type κ) → ((a : A) → P a → Q a) → (xs : List A) → All P xs → All Q xs
  All-mono P Q h [] p = tt
  All-mono P Q h (x ∷ xs) p = (h x p.0, All-mono P Q h xs p.1)
