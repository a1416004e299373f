-- ===== src/Adapters/Chunker.antt =====
-- `RecursiveChunkingStrategy` (app/infrastructure/chunking/recursive_chunker.py). The splitter of the
-- library is a parameter.
pub mod Ids
use cortex_rag.Base.{ℕ, ◌+◌, List, [], ◌∷◌, Text}
use cortex_rag.Vector.{TextChunk, ChunkingConfig}

-- `enumerate(texts)`, from `i` on
unfoldable pub enumerate_from : ℕ → List Text → List TextChunk
enumerate_from i [] = []
enumerate_from i (content ∷ texts) =
    record { index = i; content = content } ∷ enumerate_from (i + 1) texts

unfoldable pub split : (ChunkingConfig → Text → List Text) → Text → ChunkingConfig → List TextChunk
unfolding enumerate_from
split split_text source config = enumerate_from 0 (split_text config source)
