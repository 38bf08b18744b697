-- ===== src/Span.antt =====
-- Half-open spans of keys with an empty end for no bound: the facts that key ranges
-- (crates/aresadb-core/src/range.rs) and range descriptors (crates/aresadb-pd/src/types.rs) share.
use aresadb.Prelude.{◌≡◌, Bool, true, false, ◌&&◌, ◌||◌, [], ◌∷◌, arith}
use aresadb.Ord.{lt?, le?, lt?_trans, le?-not-lt?}
use aresadb.Ord.Bytes.{Bytes, bytes_ord}

abbrev pub is_empty : Bytes → Bool
is_empty [] = true
is_empty (x ∷ xs) = false

-- `key` is below the end of a span.
abbrev pub before_end : Bytes → Bytes → Bool
before_end end key = is_empty end || lt? key end

abbrev pub in_span : Bytes → Bytes → Bytes → Bool
in_span start end key = le? start key && before_end end key

-- `le_trans` for byte strings, on the tests.
pub le?_trans : (a b c : Bytes) → le? a b ≡ true → le? b c ≡ true → le? a c ≡ true
le?_trans a b c h k = ground (
  arith,
  le?-not-lt? a b,
  le?-not-lt? b c,
  le?-not-lt? a c,
  lt?_trans c a b,
  lt?_trans c b a,
  bytes_ord.eq_of_cmp a b,
  bytes_ord.eq_of_cmp b c,
  bytes_ord.lt_of_gt a c,
  bytes_ord.lt_of_gt a b,
  lt?_trans a b c,
)

pub lt?_of_le-lt : (a b c : Bytes) → le? a b ≡ true → lt? b c ≡ true → lt? a c ≡ true
lt?_of_le-lt a b c h k = ground (arith, lt?_trans a b c, bytes_ord.eq_of_cmp a b)

pub lt?_of_lt-le : (a b c : Bytes) → lt? a b ≡ true → le? b c ≡ true → lt? a c ≡ true
lt?_of_lt-le a b c h k = ground (arith, lt?_trans a b c, bytes_ord.eq_of_cmp b c)

-- A span cut at a key inside it: the keys below the cut are those of the left part, the others
-- those of the right part.
module _ (start mid end key : Bytes) where
  pub in_span-left :
      before_end end mid ≡ true
      → lt? key mid ≡ true
      → (in_span start end key ≡ in_span start mid key) × (in_span mid end key ≡ false)
  in_span-left b h = ground (arith, le?-not-lt? mid key, lt?_trans key mid end)

  pub in_span-right :
      le? start mid ≡ true
      → is_empty mid ≡ false
      → lt? key mid ≡ false
      → (in_span start end key ≡ in_span mid end key) × (in_span start mid key ≡ false)
  in_span-right s e h = ground (arith, le?-not-lt? mid key, le?_trans start mid key)
