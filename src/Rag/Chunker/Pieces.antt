-- ===== src/Rag/Chunker/Pieces.antt =====
-- A list of chunks: what it is numbered by, and the text that it makes up.
use aresadb.Prelude.{
  ℕ, zero, suc, ◌+◌, ◌-◌, ◌<◌, ◌≤◌, ◌≡◌, refl, ap, List, [], ◌∷◌, ◌++◌, length, take, drop, arith,
  take-take, take-drop, drop_add,
}
use Prim.Native.String.{String}
use aresadb.Rag.Chunker.{DocumentChunk, byte_len, slice, set_totals}

-- The text of the chunks without what each but the last shares with the next one.
abbrev pub joined : ℕ → List DocumentChunk → List ℕ
joined step [] = []
joined step (chunk ∷ []) = chunk.content
joined step (chunk ∷ next ∷ chunks) = take step chunk.content ++ joined step (next ∷ chunks)

-- The chunks are numbered from `i` on, are of the document, have the total, hold no more than a
-- chunk may, and their offsets in bytes differ by what they hold.
abbrev pub Numbered : String → ℕ → ℕ → ℕ → List DocumentChunk → Type 0
Numbered document_id chunk_size total i [] = Unit
Numbered document_id chunk_size total i (chunk ∷ chunks) =
    (chunk.chunk_index ≡ i)
    × (chunk.document_id ≡ document_id)
    × (chunk.total_chunks ≡ total)
    × (length chunk.content ≤ chunk_size)
    × (chunk.end_offset ≡ chunk.start_offset + byte_len chunk.content)
    × Numbered document_id chunk_size total (i + 1) chunks

byte_len-take_nil : (n : ℕ) → byte_len (take n []) ≡ 0
byte_len-take_nil zero = refl
byte_len-take_nil (suc n) = refl

pub byte_len-slice :
    (start end : ℕ) (x : List ℕ)
    → start ≤ end
    → byte_len (take end x) ≡ byte_len (take start x) + byte_len (slice start end x)
byte_len-slice zero end x h = let whole : end - 0 ≡ end = omega arith in rw whole (omega arith)
byte_len-slice (suc start) zero x h = absurd (omega (arith, h))
byte_len-slice (suc start) (suc end) [] h = omega (arith, byte_len-take_nil (suc end - suc start))
byte_len-slice (suc start) (suc end) (c ∷ x) h =
    let same : byte_len (slice (suc start) (suc end) (c ∷ x)) ≡ byte_len (slice start end x) =
      ap (λ n. byte_len (take n (drop start x))) (omega arith) in
    omega (arith, same, byte_len-slice start end x (omega (arith, h)))

pub joined_cons :
    (step : ℕ) (chunk : DocumentChunk) (chunks : List DocumentChunk)
    → 0 < length chunks
    → joined step (chunk ∷ chunks) ≡ take step chunk.content ++ joined step chunks
joined_cons step chunk [] h = absurd (omega (arith, h))
joined_cons step chunk (next ∷ chunks) h = refl

pub joined-set_totals :
    (step n : ℕ) (chunks : List DocumentChunk)
    → joined step (set_totals n chunks) ≡ joined step chunks
joined-set_totals step n [] = refl
joined-set_totals step n (chunk ∷ []) = refl
joined-set_totals step n (chunk ∷ next ∷ chunks) =
    ap (λ x. take step chunk.content ++ x) (joined-set_totals step n (next ∷ chunks))

pub Numbered-set_totals :
    (document_id : String) (chunk_size m n i : ℕ) (chunks : List DocumentChunk)
    → Numbered document_id chunk_size m i chunks
    → Numbered document_id chunk_size n i (set_totals n chunks)
Numbered-set_totals document_id chunk_size m n i [] h = tt
Numbered-set_totals document_id chunk_size m n i (chunk ∷ chunks)
      (index, doc, total, size, offsets, rest) =
    (
      index,
      doc,
      refl,
      size,
      offsets,
      Numbered-set_totals document_id chunk_size m n (i + 1) chunks rest,
    )

pub length-set_totals :
    (n : ℕ) (chunks : List DocumentChunk) → length (set_totals n chunks) ≡ length chunks
length-set_totals n [] = refl
length-set_totals n (chunk ∷ chunks) = ap suc (length-set_totals n chunks)

-- A chunk's own part and what follows it.
pub slice-joined :
    (start chunk_size step : ℕ) (x : List ℕ)
    → step ≤ chunk_size
    → take step (slice start (start + chunk_size) x) ++ drop (start + step) x ≡ drop start x
slice-joined start chunk_size step x h =
    let size : start + chunk_size - start ≡ chunk_size = omega arith in
    rw (size, drop_add start step (start + step) x refl, take-take step chunk_size (drop start x) h)
      (take-drop step (drop start x))
