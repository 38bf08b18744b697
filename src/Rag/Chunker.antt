-- ===== src/Rag/Chunker.antt =====
-- src/rag/chunker.rs: chunks of a fixed size, with an overlap. A text is the list of its code points.
-- A chunk's id, a formatted text, is a parameter, and its metadata, which is always empty, is left
-- out. No sum wraps: past the first round `chunk_size` and `start` are below the number of code
-- points.
pub mod Pieces
pub mod Coverage
use Prim.Native.String.{String}
use aresadb.Prelude.{
  ℕ, zero, suc, ◌+◌, ◌-◌, ◌==◌, min, max, Option, none, some, List, [], ◌∷◌, length, take, drop,
  ltb, leb, if◌then◌else◌,
}

pub record DocumentChunk : Type 0 where
  pub id : String
  pub document_id : String
  pub content : List ℕ
  pub chunk_index : ℕ
  pub total_chunks : ℕ
  pub start_offset : ℕ
  pub end_offset : ℕ

abbrev pub len_utf8 : ℕ → ℕ
len_utf8 c = if ltb c 0x80 then 1 else (if ltb c 0x800 then 2 else (if ltb c 0x10000 then 3 else 4))

-- `collect::<String>().len()`
abbrev pub byte_len : List ℕ → ℕ
byte_len [] = 0
byte_len (c ∷ chars) = len_utf8 c + byte_len chars

-- `&chars[start..end]`
abbrev pub slice : ℕ → ℕ → List ℕ → List ℕ
slice start end chars = take (end - start) (drop start chars)

abbrev pub step_of : ℕ → ℕ → ℕ
step_of chunk_size overlap = max (chunk_size - overlap) 1

abbrev pub set_totals : ℕ → List DocumentChunk → List DocumentChunk
set_totals total [] = []
set_totals total (chunk ∷ chunks) = record chunk { total_chunks = total } ∷ set_totals total chunks

module _ (id_of : String → ℕ → String) where
  abbrev pub chunk_at : String → List ℕ → ℕ → ℕ → ℕ → DocumentChunk
  chunk_at document_id chars start end chunk_index = record {
    id = id_of document_id chunk_index;
    document_id = document_id;
    content = slice start end chars;
    chunk_index = chunk_index;
    total_chunks = 0;
    start_offset = byte_len (take start chars);
    end_offset = byte_len (take end chars);
  }

  abbrev pub push_front : DocumentChunk → Option (List DocumentChunk) → Option (List DocumentChunk)
  push_front chunk none = none
  push_front chunk (some chunks) = some (chunk ∷ chunks)

  -- `while start < content_len`, on fuel; none is fuel that has run out.
  unfoldable pub chunk_loop : ℕ → String → List ℕ → ℕ → ℕ → ℕ → ℕ → Option (List DocumentChunk)
  chunk_loop zero document_id chars chunk_size step start chunk_index =
      if ltb start (length chars) then none else some []
  chunk_loop (suc fuel) document_id chars chunk_size step start chunk_index =
      let end = min (start + chunk_size) (length chars) in
      let chunk = chunk_at document_id chars start end chunk_index in
      let rest =
        chunk_loop fuel document_id chars chunk_size step (start + step) (chunk_index + 1) in
      if ltb start (length chars)
      then (if leb (length chars) end then some (chunk ∷ []) else push_front chunk rest)
      else some []

  abbrev pub with_totals : Option (List DocumentChunk) → Option (List DocumentChunk)
  with_totals none = none
  with_totals (some chunks) = some (set_totals (length chunks) chunks)

  -- A round for each code point is fuel enough.
  unfoldable pub chunk_fixed_size : String → List ℕ → ℕ → ℕ → Option (List DocumentChunk)
  unfolding chunk_loop
  chunk_fixed_size document_id chars chunk_size overlap =
      if length chars == 0
      then some []
      else with_totals
          (chunk_loop (length chars) document_id chars chunk_size (step_of chunk_size overlap) 0 0)
