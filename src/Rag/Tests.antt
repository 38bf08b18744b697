-- ===== src/Rag/Tests.antt =====
-- Runs of the chunker and the theorem at a concrete input.
use Prim.Native.String.{String}
use aresadb.Prelude.{ℕ, ◌≡◌, some, List, [], ◌∷◌, length, arith}
use aresadb.Rag.Chunker.{DocumentChunk, chunk_fixed_size, step_of}
use aresadb.Rag.Chunker.Pieces.{joined, Numbered}
use aresadb.Rag.Chunker.Coverage.{chunk_fixed_size-covers}

-- Seven code points, one of two bytes and one of three, in chunks of 3 that share 1.
abbrev text : List ℕ
text = 97 ∷ 0xe9 ∷ 99 ∷ 0x20ac ∷ 101 ∷ 102 ∷ 103 ∷ []

abbrev no_id : String → ℕ → String
no_id document_id i = document_id

chunk_fixed_size-covers_example :
    (chunks : List DocumentChunk) × (chunk_fixed_size no_id "doc" text 3 1 ≡ some chunks)
    × (joined (step_of 3 1) chunks ≡ text)
    × Numbered "doc" 3 (length chunks) 0 chunks
chunk_fixed_size-covers_example = chunk_fixed_size-covers no_id "doc" text 3 1 (omega arith)
