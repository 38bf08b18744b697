-- ===== src/Core/Keys/RoundTrip.antt =====
-- Decoding an encoded key gives the key back.
use aresadb.Prelude.{
  ℕ, suc, ◌+◌, ◌≡◌, refl, ap, ◌∙◌, false, List, [], ◌∷◌, ◌++◌, ◌==◌, length, arith, Bool-cases, inl,
  inr,
}
use mathlib.Core.List.{append_assoc, append-nil}
use aresadb.Ord.Bytes.{Bytes}
use aresadb.Core.Keys
use aresadb.Core.Keys.Segments.{
  escape, write_segments, split_from, split_segments, write_multi, nul, terminator,
}
use aresadb.Core.Keys.Types.{
  ok, Key, edge_from, edge_to, property_index, fulltext_index, vector_index,
}

escaped_length : Bytes → ℕ
escaped_length s = length (escape s) + 2

split_from-escape :
    (s rest : Bytes) (left index i : ℕ) (current : Bytes) (segments : List Bytes)
    → split_from (escape s ++ (nul ∷ terminator ∷ rest)) (suc left) false index i current segments
      ≡ split_from rest left false
          (index + 1)
          (i + escaped_length s)
          []
          (segments ++ (current ++ s) ∷ [])
unfolding split_from escape escaped_length
split_from-escape [] rest left index i current segments = rw append-nil refl
split_from-escape (b ∷ s) rest left index i current segments = elim (Bool-cases (b == nul)) [
  | inl e ↦ rw e (
      ground (
        arith,
        split_from-escape s rest left index (i + 2) (current ++ nul ∷ []) segments,
        append_assoc current (nul ∷ []) s,
      ))
  | inr e ↦
      rw (e, e)
        (ground (
          arith,
          split_from-escape s rest left index (i + 1) (current ++ b ∷ []) segments,
          append_assoc current (b ∷ []) s,
        ))
]

-- Any number of segments at once, and then the raw rest.
split_from-write_segments :
    (head : List Bytes) (last : Bytes) (index i : ℕ) (segments : List Bytes)
    → split_from (write_segments head last) (length head) false index i [] segments
      ≡ ok (segments ++ head, last)
unfolding split_from write_segments
split_from-write_segments [] [] index i segments = rw append-nil
split_from-write_segments [] (b ∷ last) index i segments = rw append-nil
split_from-write_segments (s ∷ head) last index i segments =
    split_from-escape s (write_segments head last) (length head) index i [] segments
    ∙ (split_from-write_segments head last (index + 1) (i + escaped_length s) (segments ++ s ∷ [])
        ∙ ap (λ (r : List Bytes). ok (r, last)) (append_assoc segments (s ∷ []) head))

split_segments-write_segments :
    (head : List Bytes) (last : Bytes)
    → split_segments (write_segments head last) (length head) ≡ ok (head, last)
unfolding split_segments
split_segments-write_segments head last = split_from-write_segments head last 0 0 []

-- Whatever bytes its segments hold, an encoded key decodes to the key, and no `expect` fails.
pub decode-encode : (k : Key) → Keys.decode (Keys.encode k) ≡ ok k
unfolding Keys.decode Keys.decode_kind Keys.decode_index Keys.decode_tail Keys.encode write_multi
decode-encode (edge_from from edge_id) = rw (split_segments-write_segments (from ∷ []) edge_id)
decode-encode (edge_to to edge_id) = rw (split_segments-write_segments (to ∷ []) edge_id)
decode-encode (property_index type field value node_id) =
    rw (split_segments-write_segments (type ∷ field ∷ value ∷ []) node_id)
decode-encode (fulltext_index type field token node_id) =
    rw (split_segments-write_segments (type ∷ field ∷ token ∷ []) node_id)
decode-encode (vector_index type field node_id) =
    rw (split_segments-write_segments (type ∷ field ∷ []) node_id)
decode-encode _ = refl
