-- ===== src/Core/KeyRange/Prefix.antt =====
-- A prefix range holds exactly the keys that begin with the prefix.
use mathlib.Core.List.{reverse, reverse-append, reverse-cons}
use aresadb.Prelude.{
  ℕ, ◌+◌, ◌<◌, ◌≡◌, refl, Bool, true, false, ◌&&◌, [], ◌∷◌, ◌++◌, ◌==◌, if◌then◌else◌, All, arith,
  sym, ap, ◌∙◌,
}
use aresadb.Ord.{le?}
use aresadb.Ord.Bytes.{Bytes, bytes_ord}
use aresadb.Span.{before_end}
use aresadb.Core.KeyRange.{contains, bump_last, prefix_successor, prefix}

-- Every element fits a `u8`.
abbrev pub IsBytes : Bytes → Type 0
IsBytes k = All (λ b. b < 256) k

abbrev pub starts_with : Bytes → Bytes → Bool
starts_with [] key = true
starts_with (x ∷ p) [] = false
starts_with (x ∷ p) (y ∷ key) = (x == y) && starts_with p key

-- The successor read from the front.
abbrev extend : ℕ → Bytes → Bytes
extend x [] = if x == 0xff then [] else (x + 1) ∷ []
extend x (y ∷ q) = x ∷ y ∷ q

successor : Bytes → Bytes
successor [] = []
successor (x ∷ p) = extend x (successor p)

abbrev push_bumped : Bytes → ℕ → Bytes
push_bumped [] x = if x == 0xff then [] else (x + 1) ∷ []
push_bumped (y ∷ q) x = y ∷ (q ++ x ∷ [])

bump_last-append : (r : Bytes) (x : ℕ) → bump_last (r ++ x ∷ []) ≡ push_bumped (bump_last r) x
unfolding bump_last
bump_last-append [] x = refl
bump_last-append (y ∷ r) x = ground (arith, bump_last-append r x)

extend-snoc : (x y : ℕ) (r : Bytes) → extend x (r ++ y ∷ []) ≡ x ∷ (r ++ y ∷ [])
extend-snoc x y [] = refl
extend-snoc x y (z ∷ r) = refl

reverse-push_bumped : (q : Bytes) (x : ℕ) → reverse (push_bumped q x) ≡ extend x (reverse q)
reverse-push_bumped [] x = ground arith
reverse-push_bumped (y ∷ q) x =
    reverse-append (y ∷ q) (x ∷ [])
    ∙ (ap (λ (r : Bytes). x ∷ r) (reverse-cons y q)
        ∙ (sym (extend-snoc x y (reverse q)) ∙ ap (extend x) (sym (reverse-cons y q))))

prefix_successor-eq-successor : (p : Bytes) → prefix_successor p ≡ successor p
unfolding prefix_successor successor bump_last
prefix_successor-eq-successor [] = refl
prefix_successor-eq-successor (x ∷ p) =
    ap (λ r. reverse (bump_last r)) (reverse-cons x p)
    ∙ (ap reverse (bump_last-append (reverse p) x)
        ∙ (reverse-push_bumped (bump_last (reverse p)) x
            ∙ ap (extend x) (prefix_successor-eq-successor p)))

-- One byte of the prefix: `s` is the successor of the rest.
extend_step :
    (x y : ℕ) (p key s : Bytes)
    → y < 256
    → (le? p key && before_end s key) ≡ starts_with p key
    → (le? (x ∷ p) (y ∷ key) && before_end (extend x s) (y ∷ key)) ≡ starts_with (x ∷ p) (y ∷ key)
extend_step x y p [] [] h ih = ground arith
extend_step x y p (k ∷ key) [] h ih = ground arith
extend_step x y p key (z ∷ s) h ih = ground arith

contains-successor :
    (p key : Bytes) → IsBytes key → (le? p key && before_end (successor p) key) ≡ starts_with p key
unfolding successor
contains-successor [] key h = ground arith
contains-successor (x ∷ p) [] h = refl
contains-successor (x ∷ p) (y ∷ key) h =
    extend_step x y p key (successor p) h.0 (contains-successor p key h.1)

-- A key of bytes lies in the range of a prefix exactly when it begins with the prefix, also where
-- the prefix ends in 0xff bytes or holds nothing else.
pub contains-prefix : (p key : Bytes) → IsBytes key → contains (prefix p) key ≡ starts_with p key
unfolding contains prefix
contains-prefix p key h = rw prefix_successor-eq-successor (contains-successor p key h)
