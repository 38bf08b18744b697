-- ===== src/BigEndian/Laws.antt =====
-- Writing and reading are inverse, and byte order is numeric order.
use mathlib.Core.List.{append_assoc, append-nil}
use aresadb.Prelude.{
  ℕ, zero, suc, ◌+◌, ◌*◌, ◌/◌, ◌%◌, ◌<◌, ◌≡◌, refl, sym, ap, ◌∙◌, [], ◌∷◌, ◌++◌, length,
  length-append, compare, All-append, arith,
}
use aresadb.Ord.Bytes.{Bytes, cmp_bytes, and_then}
use aresadb.Core.KeyRange.Prefix.{IsBytes}
use aresadb.BigEndian.{u64_mod, be_bytes, from_be_bytes, put_u64}

-- The number has at most that many digits in base 256.
abbrev pub Fits : ℕ → ℕ → Type 0
Fits zero n = n ≡ 0
Fits (suc width) n = Fits width (n / 256)

pub Fits-u64 : (n : ℕ) → n < u64_mod → Fits 8 n
Fits-u64 n h = omega arith

from_be_bytes-append :
    (acc : ℕ) (a b : Bytes) → from_be_bytes acc (a ++ b) ≡ from_be_bytes (from_be_bytes acc a) b
unfolding from_be_bytes
from_be_bytes-append acc [] b = refl
from_be_bytes-append acc (x ∷ a) b = from_be_bytes-append (acc * 256 + x) a b

length-be_bytes : (width n : ℕ) → length (be_bytes width n) ≡ width
unfolding be_bytes
length-be_bytes zero n = refl
length-be_bytes (suc width) n = omega (
  arith,
  length-append (be_bytes width (n / 256)) (n % 256 ∷ []),
  length-be_bytes width (n / 256),
)

from_be_bytes-be_bytes : (width n : ℕ) → Fits width n → from_be_bytes 0 (be_bytes width n) ≡ n
unfolding from_be_bytes be_bytes
from_be_bytes-be_bytes zero n h = sym h
from_be_bytes-be_bytes (suc width) n h =
    rw
      (
        from_be_bytes-append 0 (be_bytes width (n / 256)) (n % 256 ∷ []),
        from_be_bytes-be_bytes width (n / 256) h,
      )
      (omega arith)

plus_zero : (m : ℕ) → m + 0 ≡ m
plus_zero m = omega arith

plus_suc : (m n : ℕ) → m + suc n ≡ suc m + n
plus_suc m n = omega arith

be_bytes-from_be_bytes :
    (width acc : ℕ) (bytes : Bytes)
    → IsBytes bytes
    → be_bytes (width + length bytes) (from_be_bytes acc bytes) ≡ be_bytes width acc ++ bytes
unfolding from_be_bytes be_bytes
be_bytes-from_be_bytes width acc [] h =
    ap (λ w. be_bytes w acc) (plus_zero width) ∙ sym (append-nil (be_bytes width acc))
be_bytes-from_be_bytes width acc (b ∷ bytes) h =
    ap (λ w. be_bytes w (from_be_bytes (acc * 256 + b) bytes)) (plus_suc width (length bytes))
    ∙ be_bytes-from_be_bytes (suc width) (acc * 256 + b) bytes h.1
    ∙ rw (quotient, remainder) (append_assoc (be_bytes width acc) (b ∷ []) bytes)
  where
    quotient : (acc * 256 + b) / 256 ≡ acc
    quotient = omega (arith, h.0)

    remainder : (acc * 256 + b) % 256 ≡ b
    remainder = omega (arith, h.0)

cmp_bytes-snoc :
    (a b : Bytes) (x y : ℕ)
    → length a ≡ length b
    → cmp_bytes (a ++ x ∷ []) (b ++ y ∷ []) ≡ and_then (cmp_bytes a b) (compare x y)
cmp_bytes-snoc [] [] x y h = ground arith
cmp_bytes-snoc (u ∷ a) [] x y h = absurd (omega arith)
cmp_bytes-snoc [] (v ∷ b) x y h = absurd (omega arith)
cmp_bytes-snoc (u ∷ a) (v ∷ b) x y h = ground (arith, cmp_bytes-snoc a b x y)

pub cmp_bytes-be_bytes :
    (width m n : ℕ)
    → Fits width m
    → Fits width n
    → cmp_bytes (be_bytes width m) (be_bytes width n) ≡ compare m n
unfolding be_bytes
cmp_bytes-be_bytes zero m n h k = ground arith
cmp_bytes-be_bytes (suc width) m n h k =
    rw
      (
        cmp_bytes-snoc (be_bytes width (m / 256)) (be_bytes width (n / 256)) (m % 256) (n % 256)
            (length-be_bytes width (m / 256) ∙ sym (length-be_bytes width (n / 256))),
        cmp_bytes-be_bytes width (m / 256) (n / 256) h k,
      )
      (ground arith)

pub cmp_bytes-put_u64 :
    (i j : ℕ) → i < u64_mod → j < u64_mod → cmp_bytes (put_u64 i) (put_u64 j) ≡ compare i j
cmp_bytes-put_u64 i j h k = cmp_bytes-be_bytes 8 i j (Fits-u64 i h) (Fits-u64 j k)

pub length-put_u64 : (n : ℕ) → length (put_u64 n) ≡ 8
length-put_u64 n = length-be_bytes 8 n

pub from_be_bytes-put_u64 : (n : ℕ) → n < u64_mod → from_be_bytes 0 (put_u64 n) ≡ n
from_be_bytes-put_u64 n h = from_be_bytes-be_bytes 8 n (Fits-u64 n h)

pub put_u64-from_be_bytes : (k : Bytes) → IsBytes k → length k ≡ 8 → put_u64 (from_be_bytes 0 k) ≡ k
unfolding be_bytes
put_u64-from_be_bytes k h l =
    ap (λ w. be_bytes w (from_be_bytes 0 k)) (eight l) ∙ be_bytes-from_be_bytes 0 0 k h
  where
    eight : length k ≡ 8 → 8 ≡ 0 + length k
    eight l = omega (arith, l)

abbrev scale : ℕ → ℕ → ℕ
scale zero m = m
scale (suc n) m = scale n (m * 256)

from_be_bytes_below :
    (n acc m : ℕ) (k : Bytes) → IsBytes k → length k ≡ n → acc < m → from_be_bytes acc k < scale n m
unfolding from_be_bytes
from_be_bytes_below zero acc m [] h l b = b
from_be_bytes_below zero acc m (x ∷ k) h l b = absurd (omega (arith, l))
from_be_bytes_below (suc n) acc m [] h l b = absurd (omega (arith, l))
from_be_bytes_below (suc n) acc m (x ∷ k) h l b =
    from_be_bytes_below n (acc * 256 + x) (m * 256) k h.1 (omega (arith, l)) (omega (arith, b, h.0))

pub from_be_bytes-u64 : (k : Bytes) → IsBytes k → length k ≡ 8 → from_be_bytes 0 k < u64_mod
from_be_bytes-u64 k h l = from_be_bytes_below 8 0 1 k h l (omega arith)

be_bytes-IsBytes : (width n : ℕ) → IsBytes (be_bytes width n)
unfolding be_bytes
be_bytes-IsBytes zero n = tt
be_bytes-IsBytes (suc width) n =
    All-append (λ b. b < 256) (be_bytes width (n / 256)) (n % 256 ∷ [])
      (be_bytes-IsBytes width (n / 256)) (omega arith, tt)

pub put_u64-IsBytes : (n : ℕ) → IsBytes (put_u64 n)
put_u64-IsBytes n = be_bytes-IsBytes 8 n
