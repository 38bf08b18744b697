-- ===== src/Core/Keys/Canonical.antt =====
-- The encoding is canonical: what decodes at all is the encoding of what it decodes to.
use aresadb.Prelude.{
  ℕ, zero, suc, ◌+◌, ◌≡◌, refl, Bool, true, false, ◌&&◌, List, [], ◌∷◌, ◌++◌, ◌==◌, length,
  length-append, arith,
}
use mathlib.Core.List.{append_assoc}
use aresadb.Ord.Bytes.{Bytes}
use aresadb.Core.Keys
use aresadb.Core.Keys.{
  tag, one_segment, two_segments, three_segments, is_slash, tail, decode_kind, decode_index,
  decode_tail,
}
use aresadb.Core.Keys.Segments.{
  escape, write_segments, split_from, split_segments, write_multi, nul, terminator, escape_byte,
}
use aresadb.Core.Keys.Types.{
  Decoded, ok, err, panicked, ◌>>=◌, Key, edge_from, edge_to, property_index, fulltext_index,
  vector_index,
}

write_segments-snoc :
    (segments : List Bytes) (s rest : Bytes)
    → write_segments (segments ++ s ∷ []) rest
      ≡ write_segments segments (escape s ++ (nul ∷ terminator ∷ rest))
unfolding write_segments
write_segments-snoc [] s rest = refl
write_segments-snoc (t ∷ segments) s rest = rw (write_segments-snoc segments s rest)

escape-append : (a b : Bytes) → escape (a ++ b) ≡ escape a ++ escape b
unfolding escape
escape-append [] b = refl
escape-append (x ∷ a) b = ground (arith, escape-append a b)

-- The bytes that the state of the loop stands for.
abbrev pending : Bool → Bytes → Bytes
pending false body = body
pending true body = nul ∷ body

abbrev consumed : List Bytes → ℕ → Bool → Bytes → Bytes → Bytes
consumed segments zero after_nul current body = write_segments segments body
consumed segments (suc left) after_nul current body =
    write_segments segments (escape current ++ pending after_nul body)

escape_snoc_byte :
    (current : Bytes) (b : ℕ) (body : Bytes)
    → (b == nul) ≡ false
    → escape (current ++ b ∷ []) ++ body ≡ escape current ++ (b ∷ body)
escape_snoc_byte current b body h =
    rw (escape-append current (b ∷ []), append_assoc (escape current) (escape (b ∷ [])) body)
      (unfold escape in rw h)

escape_snoc_nul :
    (current body : Bytes)
    → escape (current ++ nul ∷ []) ++ body ≡ escape current ++ (nul ∷ escape_byte ∷ body)
escape_snoc_nul current body =
    rw (escape-append current (nul ∷ []), append_assoc (escape current) (escape (nul ∷ [])) body)
      (unfold escape in refl)

-- A terminator ends the current segment: the next one is begun empty.
ended_lem :
    (left : ℕ) (segments : List Bytes) (current body : Bytes)
    → (consumed (segments ++ current ∷ []) left false [] body
        ≡ write_segments segments (escape current ++ (nul ∷ terminator ∷ body)))
      × (length (segments ++ current ∷ []) ≡ suc (length segments))
unfolding escape
ended_lem zero segments current body = (
  write_segments-snoc segments current body,
  omega (arith, length-append segments (current ∷ [])),
)
ended_lem (suc left) segments current body = (
  write_segments-snoc segments current body,
  omega (arith, length-append segments (current ∷ [])),
)

split_from-Canonical :
    (body : Bytes) (left : ℕ) (after_nul : Bool) (index i : ℕ) (current : Bytes)
    (segments out : List Bytes) (last : Bytes)
    → split_from body left after_nul index i current segments ≡ ok (out, last)
    → (write_segments out last ≡ consumed segments left after_nul current body)
      × (length out ≡ length segments + left)
unfolding split_from
split_from-Canonical [] zero z index i current segments out last h = ground arith
split_from-Canonical (b ∷ body) zero z index i current segments out last h = ground arith
split_from-Canonical [] (suc left) false index i current segments out last h = ground arith
split_from-Canonical [] (suc left) true index i current segments out last h = ground arith
split_from-Canonical (b ∷ body) (suc left) false index i current segments out last h = ground (
  arith,
  split_from-Canonical body (suc left) true index i current segments out last,
  split_from-Canonical body (suc left) false index (i + 1) (current ++ b ∷ []) segments out last,
  escape_snoc_byte current b body,
)
split_from-Canonical (b ∷ body) (suc left) true index i current segments out last h = ground (
  arith,
  split_from-Canonical body (suc left) false index (i + 2) (current ++ nul ∷ []) segments out last,
  escape_snoc_nul current body,
  ended_lem left segments current body,
  split_from-Canonical body left false (index + 1) (i + 2) [] (segments ++ current ∷ []) out last,
)

split_segments-Canonical :
    (body : Bytes) (n : ℕ) (out : List Bytes) (last : Bytes)
    → split_segments body n ≡ ok (out, last)
    → (write_segments out last ≡ body) × (length out ≡ n)
unfolding split_segments write_segments escape
split_segments-Canonical body zero out last h =
    let r = split_from-Canonical body zero false 0 0 [] [] out last h in (r.0, omega (arith, r.1))
split_segments-Canonical body (suc n) out last h =
    let r = split_from-Canonical body (suc n) false 0 0 [] [] out last h in
    (r.0, omega (arith, r.1))

one_segment-Canonical :
    (body : Bytes) (key : Bytes → Bytes → Key) (k : Key)
    → (split_segments body 1 >>= one_segment key) ≡ ok k
    → (a : Bytes) × (last : Bytes) × (k ≡ key a last) × (write_segments (a ∷ []) last ≡ body)
one_segment-Canonical body key k h = go (split_segments body 1) refl h
  where
    go :
        (d : Decoded (List Bytes × Bytes))
        → split_segments body 1 ≡ d
        → (d >>= one_segment key) ≡ ok k
        → (a : Bytes) × (last : Bytes) × (k ≡ key a last) × (write_segments (a ∷ []) last ≡ body)
    go (ok ([], last)) e h = cc
    go (ok (a ∷ [], last)) e h =
        (a, last, ground arith, (split_segments-Canonical body 1 (a ∷ []) last e).0)
    go (ok (a ∷ x ∷ l, last)) e h =
        absurd (omega (arith, (split_segments-Canonical body 1 (a ∷ x ∷ l) last e).1))
    go (err x) e h = cc
    go panicked e h = cc

two_segments-Canonical :
    (body : Bytes) (key : Bytes → Bytes → Bytes → Key) (k : Key)
    → (split_segments body 2 >>= two_segments key) ≡ ok k
    → (a : Bytes) × (b : Bytes) × (last : Bytes) × (k ≡ key a b last)
      × (write_segments (a ∷ b ∷ []) last ≡ body)
two_segments-Canonical body key k h = go (split_segments body 2) refl h
  where
    go :
        (d : Decoded (List Bytes × Bytes))
        → split_segments body 2 ≡ d
        → (d >>= two_segments key) ≡ ok k
        → (a : Bytes) × (b : Bytes) × (last : Bytes) × (k ≡ key a b last)
          × (write_segments (a ∷ b ∷ []) last ≡ body)
    go (ok ([], last)) e h = cc
    go (ok (a ∷ [], last)) e h = cc
    go (ok (a ∷ b ∷ [], last)) e h =
        (a, b, last, ground arith, (split_segments-Canonical body 2 (a ∷ b ∷ []) last e).0)
    go (ok (a ∷ b ∷ x ∷ l, last)) e h =
        absurd (omega (arith, (split_segments-Canonical body 2 (a ∷ b ∷ x ∷ l) last e).1))
    go (err x) e h = cc
    go panicked e h = cc

three_segments-Canonical :
    (body : Bytes) (key : Bytes → Bytes → Bytes → Bytes → Key) (k : Key)
    → (split_segments body 3 >>= three_segments key) ≡ ok k
    → (a : Bytes) × (b : Bytes) × (c : Bytes) × (last : Bytes) × (k ≡ key a b c last)
      × (write_segments (a ∷ b ∷ c ∷ []) last ≡ body)
three_segments-Canonical body key k h = go (split_segments body 3) refl h
  where
    go :
        (d : Decoded (List Bytes × Bytes))
        → split_segments body 3 ≡ d
        → (d >>= three_segments key) ≡ ok k
        → (a : Bytes) × (b : Bytes) × (c : Bytes) × (last : Bytes) × (k ≡ key a b c last)
          × (write_segments (a ∷ b ∷ c ∷ []) last ≡ body)
    go (ok ([], last)) e h = cc
    go (ok (a ∷ [], last)) e h = cc
    go (ok (a ∷ b ∷ [], last)) e h = cc
    go (ok (a ∷ b ∷ c ∷ [], last)) e h =
        (a, b, c, last, ground arith, (split_segments-Canonical body 3 (a ∷ b ∷ c ∷ []) last e).0)
    go (ok (a ∷ b ∷ c ∷ x ∷ l, last)) e h =
        absurd (omega (arith, (split_segments-Canonical body 3 (a ∷ b ∷ c ∷ x ∷ l) last e).1))
    go (err x) e h = cc
    go panicked e h = cc

module _ (b1 b2 : ℕ) (rest : Bytes) (k : Key) where
  decode_tail-Canonical : decode_tail b1 b2 rest ≡ ok k → Keys.encode k ≡ b'/' ∷ b1 ∷ b2 ∷ rest
  unfolding decode_tail Keys.encode write_multi
  decode_tail-Canonical h = ground (arith, two_segments-Canonical rest vector_index k)

  edge_from_arm :
      (b1 == b'e' && (b2 == b'f' && is_slash rest)) ≡ true
      → (split_segments (tail rest) 1 >>= one_segment edge_from) ≡ ok k
      → Keys.encode k ≡ b'/' ∷ b1 ∷ b2 ∷ rest
  unfolding Keys.encode write_multi
  edge_from_arm c h = ground (arith, one_segment-Canonical (tail rest) edge_from k h)

  edge_to_arm :
      (b1 == b'e' && (b2 == b't' && is_slash rest)) ≡ true
      → (split_segments (tail rest) 1 >>= one_segment edge_to) ≡ ok k
      → Keys.encode k ≡ b'/' ∷ b1 ∷ b2 ∷ rest
  unfolding Keys.encode write_multi
  edge_to_arm c h = ground (arith, one_segment-Canonical (tail rest) edge_to k h)

  property_index_arm :
      (b1 == b'p' && b2 == b'/') ≡ true
      → (split_segments rest 3 >>= three_segments property_index) ≡ ok k
      → Keys.encode k ≡ b'/' ∷ b1 ∷ b2 ∷ rest
  unfolding Keys.encode write_multi
  property_index_arm c h = ground (arith, three_segments-Canonical rest property_index k h)

  fulltext_index_arm :
      (b1 == b'f' && (b2 == b't' && is_slash rest)) ≡ true
      → (split_segments (tail rest) 3 >>= three_segments fulltext_index) ≡ ok k
      → Keys.encode k ≡ b'/' ∷ b1 ∷ b2 ∷ rest
  unfolding Keys.encode write_multi
  fulltext_index_arm c h = ground (arith, three_segments-Canonical (tail rest) fulltext_index k h)

  decode_index-Canonical : decode_index b1 b2 rest ≡ ok k → Keys.encode k ≡ b'/' ∷ b1 ∷ b2 ∷ rest
  unfolding decode_index
  decode_index-Canonical h = ground (
    arith, decode_tail-Canonical, edge_from_arm, edge_to_arm, property_index_arm,
    fulltext_index_arm,
  )

  decode_kind-Canonical : decode_kind b1 b2 rest ≡ ok k → Keys.encode k ≡ b'/' ∷ b1 ∷ b2 ∷ rest
  unfolding decode_kind Keys.encode
  decode_kind-Canonical h = ground (arith, decode_index-Canonical)

-- A byte string that decodes to a key is that key's encoding, so no two strings decode to one key.
pub encode-decode : (bytes : Bytes) (k : Key) → Keys.decode bytes ≡ ok k → Keys.encode k ≡ bytes
unfolding Keys.decode
encode-decode [] k h = ground arith
encode-decode (b0 ∷ []) k h = ground arith
encode-decode (b0 ∷ b1 ∷ []) k h = ground arith
encode-decode (b0 ∷ b1 ∷ b2 ∷ rest) k h = ground (arith, decode_kind-Canonical b1 b2 rest k)
