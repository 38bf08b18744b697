-- ===== src/Raft/LogStore/Ranges.antt =====
-- The keys of the log in order, and the ranges of keys that stand for ranges of indexes.
use aresadb.Prelude.{
  ℕ, ◌+◌, ◌<◌, ◌≡◌, refl, ◌∙◌, Bool, true, ◌&&◌, ◌||◌, [], ◌∷◌, ◌==◌, leb, ltb, compare, Bool-cases,
  inl, inr, arith,
}
use aresadb.Ord.{eq?, lt?, le?}
use aresadb.Ord.Nat.{nat_ord}
use aresadb.Ord.Bytes.{Bytes, bytes_ord, cmp_bytes, cmp_bytes-append_left}
use aresadb.BigEndian.{u64_mod, put_u64}
use aresadb.BigEndian.Laws.{cmp_bytes-put_u64}
use aresadb.Span.{is_empty}
use aresadb.Core.KeyRange
use aresadb.Raft.LogStore.{
  Bound, included, excluded, unbounded, log_key, log_range, start_key, end_key, saturating_incr,
  u64_max, log_prefix,
}

cmp_bytes-log_key :
    (i j : ℕ) → i < u64_mod → j < u64_mod → cmp_bytes (log_key i) (log_key j) ≡ compare i j
unfolding log_key
cmp_bytes-log_key i j h k =
    cmp_bytes-append_left (log_prefix ∷ []) (put_u64 i) (put_u64 j) ∙ cmp_bytes-put_u64 i j h k

pub eq?-log_key : (i j : ℕ) → i < u64_mod → j < u64_mod → eq? (log_key i) (log_key j) ≡ (i == j)
eq?-log_key i j h k = ground (arith, cmp_bytes-log_key i j h k)

pub le?-log_key : (i j : ℕ) → i < u64_mod → j < u64_mod → le? (log_key i) (log_key j) ≡ leb i j
le?-log_key i j h k = ground (arith, cmp_bytes-log_key i j h k)

pub lt?-log_key : (i j : ℕ) → i < u64_mod → j < u64_mod → lt? (log_key i) (log_key j) ≡ ltb i j
lt?-log_key i j h k = ground (arith, cmp_bytes-log_key i j h k)

-- Every log key lies between the log prefix and the next one.
pub log_key-inside :
    (i : ℕ)
    → (le? (log_prefix ∷ []) (log_key i) ≡ true) × (lt? (log_key i) ((log_prefix + 1) ∷ []) ≡ true)
unfolding log_key
log_key-inside i = (refl, refl)

-- The indexes that two bounds allow.
abbrev pub above_start : Bound → ℕ → Bool
above_start (included s) i = leb s i
above_start (excluded s) i = ltb s i
above_start unbounded i = true

abbrev pub below_end : Bound → ℕ → Bool
below_end (included e) i = leb i e
below_end (excluded e) i = ltb i e
below_end unbounded i = true

-- The bound fits a `u64`; a lower bound that is excluded is not the largest.
abbrev pub StartFits : Bound → Type 0
StartFits (included s) = s < u64_mod
StartFits (excluded s) = s < u64_max
StartFits unbounded = Unit

abbrev pub EndFits : Bound → Type 0
EndFits (included e) = e < u64_mod
EndFits (excluded e) = e < u64_mod
EndFits unbounded = Unit

start_lem :
    (s : Bound) (i : ℕ)
    → StartFits s
    → i < u64_mod
    → le? (start_key s) (log_key i) ≡ above_start s i
start_lem (included s) i h k = le?-log_key s i h k
start_lem (excluded s) i h k = ground (arith, le?-log_key (saturating_incr s) i (omega arith) k)
start_lem unbounded i h k = (log_key-inside i).0

end_lem :
    (e : Bound) (i : ℕ) → EndFits e → i < u64_mod → lt? (log_key i) (end_key e) ≡ below_end e i
end_lem (included e) i h k = elim (Bool-cases (e == u64_max)) [
  | inl last ↦ rw last (ground (arith, log_key-inside i))
  | inr more ↦ rw more (ground (arith, lt?-log_key i (e + 1) k (ground arith)))
]
end_lem (excluded e) i h k = lt?-log_key i e k h
end_lem unbounded i h k = (log_key-inside i).1

end_key-non_empty :
    (e : Bound) (key : Bytes) → (is_empty (end_key e) || lt? key (end_key e)) ≡ lt? key (end_key e)
unfolding log_key
end_key-non_empty (included e) key = ground arith
end_key-non_empty (excluded e) key = refl
end_key-non_empty unbounded key = refl

-- The range of keys that two bounds are translated to has the key of an index exactly when the
-- bounds allow the index. The index and the bounds fit a `u64`, and a lower bound that is excluded
-- is not the largest `u64`.
pub contains-log_range :
    (s e : Bound) (i : ℕ)
    → StartFits s
    → EndFits e
    → i < u64_mod
    → KeyRange.contains (log_range s e) (log_key i) ≡ (above_start s i && below_end e i)
unfolding log_range KeyRange.contains
contains-log_range s e i hs he h =
    ground (arith, start_lem s i hs h, end_lem e i he h, end_key-non_empty e (log_key i))
