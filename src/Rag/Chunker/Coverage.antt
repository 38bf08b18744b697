-- ===== src/Rag/Chunker/Coverage.antt =====
-- The chunks end, are numbered in order, and make up the text.
use aresadb.Prelude.{
  ℕ, zero, suc, ◌+◌, ◌-◌, ◌<◌, ◌≤◌, ◌==◌, ◌≡◌, refl, sym, ap, ◌∙◌, min, max, true, false, some,
  List, [], ◌∷◌, ◌++◌, length, take, drop, ltb, leb, Bool-cases, inl, inr, arith, take_all,
  length-drop, drop_past, length-take,
}
use Prim.Native.String.{String}
use aresadb.Rag.Chunker.{
  DocumentChunk, slice, step_of, set_totals, chunk_at, chunk_loop, chunk_fixed_size,
}
use aresadb.Rag.Chunker.Pieces.{
  joined, Numbered, byte_len-slice, joined_cons, joined-set_totals, Numbered-set_totals,
  length-set_totals, slice-joined,
}

module _ (id_of : String → ℕ → String) (document_id : String) (chars : List ℕ)
    (chunk_size step : ℕ) where
  abbrev Chunked : ℕ → ℕ → ℕ → Type 0
  Chunked fuel start i =
      (chunks : List DocumentChunk) × (chunk_loop id_of fuel document_id chars chunk_size step start
          i
        ≡ some chunks)
      × (joined step chunks ≡ drop start chars)
      × (start < length chars → 0 < length chunks)
      × Numbered document_id chunk_size 0 i chunks

  done-Chunked : (fuel start i : ℕ) → length chars ≤ start → Chunked fuel start i
  unfolding chunk_loop
  done-Chunked zero start i h =
      ([], ground (arith, h), sym (drop_past start chars h), (λ l. omega (arith, h, l)), tt)
  done-Chunked (suc fuel) start i h =
      ([], ground (arith, h), sym (drop_past start chars h), (λ l. omega (arith, h, l)), tt)

  last-Chunked :
      (fuel start i : ℕ)
      → start < length chars
      → length chars ≤ start + chunk_size
      → Chunked (suc fuel) start i
  unfolding chunk_loop
  last-Chunked fuel start i h l =
      let end = min (start + chunk_size) (length chars) in
      let chunk = chunk_at id_of document_id chars start end i in
      let inside : ltb start (length chars) ≡ true = ground (arith, h) in
      let at_end : leb (length chars) end ≡ true = ground (arith, l) in
      (
        chunk ∷ [],
        rw (inside, at_end) refl,
        take_all (end - start) (drop start chars) (omega (arith, length-drop start chars, l)),
        (λ q. omega arith),
        (
          refl,
          refl,
          refl,
          omega (arith, length-take (end - start) (drop start chars)),
          byte_len-slice start end chars (omega (arith, h)),
          tt,
        ),
      )

  more-Chunked :
      (fuel start i : ℕ)
      → step ≤ chunk_size
      → 0 < step
      → start + chunk_size < length chars
      → Chunked fuel (start + step) (i + 1)
      → Chunked (suc fuel) start i
  unfolding chunk_loop
  more-Chunked fuel start i s p h (chunks, e, j, more, numbered) =
      let end = min (start + chunk_size) (length chars) in
      let chunk = chunk_at id_of document_id chars start end i in
      let inside : ltb start (length chars) ≡ true = ground (arith, h) in
      let before : leb (length chars) end ≡ false = ground (arith, h) in
      let full : end ≡ start + chunk_size = omega (arith, h) in
      (
        chunk ∷ chunks,
        rw (inside, before, e) refl,
        joined_cons step chunk chunks (more (omega (arith, h, s)))
            ∙ ap (λ x. take step (slice start end chars) ++ x) j
            ∙ ap (λ k. take step (slice start k chars) ++ drop (start + step) chars) full
            ∙ slice-joined start chunk_size step chars s,
        (λ q. omega arith),
        (
          refl,
          refl,
          refl,
          omega (arith, length-take (end - start) (drop start chars)),
          byte_len-slice start end chars (omega (arith, h)),
          numbered,
        ),
      )

  pub chunk_loop-Chunked :
      (fuel start i : ℕ)
      → step ≤ chunk_size
      → 0 < step
      → length chars ≤ start + fuel
      → Chunked fuel start i
  chunk_loop-Chunked zero start i s p f = done-Chunked zero start i (omega (arith, f))
  chunk_loop-Chunked (suc fuel) start i s p f = elim (Bool-cases (ltb start (length chars))) [
    | inr out ↦ done-Chunked (suc fuel) start i (ground (arith, out))
    | inl here ↦ elim (Bool-cases (leb (length chars) (start + chunk_size))) [
      | inl last ↦ last-Chunked fuel start i (ground (arith, here)) (ground (arith, last))
      | inr more ↦
          more-Chunked fuel start i s p (ground (arith, more))
            (chunk_loop-Chunked fuel (start + step) (i + 1) s p (omega (arith, f, p)))
    ]
  ]

-- Chunking a text ends, and of each chunk but the last the first `chunk_size - overlap` code points,
-- at least one, and the whole last chunk make up the text.
-- They are numbered from 0, know their number, hold at most `chunk_size` code points, which is at
-- least 1, and span as many bytes as they hold.
pub chunk_fixed_size-covers :
    (id_of : String → ℕ → String) (document_id : String) (chars : List ℕ) (chunk_size overlap : ℕ)
    → 0 < chunk_size
    → (chunks : List DocumentChunk) × (chunk_fixed_size id_of document_id chars chunk_size overlap
        ≡ some chunks)
      × (joined (max (chunk_size - overlap) 1) chunks ≡ chars)
      × Numbered document_id chunk_size (length chunks) 0 chunks
unfolding chunk_fixed_size
chunk_fixed_size-covers id_of document_id [] chunk_size overlap h = ([], refl, refl, tt)
chunk_fixed_size-covers id_of document_id (c ∷ chars) chunk_size overlap h =
    let step = step_of chunk_size overlap in
    let (chunks, e, j, more, numbered) =
      chunk_loop-Chunked id_of document_id (c ∷ chars) chunk_size step (length (c ∷ chars)) 0 0
        (omega (arith, h)) (omega arith) (omega arith) in
    let total = length chunks in
    let some_text : (length (c ∷ chars) == 0) ≡ false = ground arith in
    (
      set_totals total chunks,
      rw (some_text, e) refl,
      joined-set_totals step total chunks ∙ j,
      rw (length-set_totals total chunks)
          (Numbered-set_totals document_id chunk_size 0 total 0 chunks numbered),
    )
