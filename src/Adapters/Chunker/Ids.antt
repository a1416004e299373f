-- ===== src/Adapters/Chunker/Ids.antt =====
-- The ids of a document's points.
use mathlib.Core.List.{tail-eq_of_cons-eq}
use cortex_rag.Base.{
  ℕ, ◌+◌, ◌<◌, ◌≡◌, refl, false, List, [], ◌∷◌, ◌++◌, map, arith, ◌==◌, nat_eq, Text, text, text_eq,
}
use cortex_rag.Base.Str.{decimal}
use cortex_rag.Base.Digits.{decimal-injective}
use cortex_rag.Job.{Uuid}
use cortex_rag.Vector.{TextChunk, ChunkingConfig}
use cortex_rag.World.{Env}
use cortex_rag.Repo.Sql.{exists}
use cortex_rag.Repo.Sql.Laws.{AreDistinct}
use cortex_rag.Documents.Process.{chunk_vector_id}
use cortex_rag.Adapters.Chunker.{enumerate_from, split}

append_cancel : (xs ys zs : Text) → xs ++ ys ≡ xs ++ zs → ys ≡ zs
append_cancel [] ys zs h = h
append_cancel (x ∷ xs) ys zs h = append_cancel xs ys zs (tail-eq_of_cons-eq h)

-- The name that `_chunk_vector_id` hashes.
abbrev pub chunk_name : Env → Uuid → ℕ → Text
chunk_name env document_id i =
    text "knowledge-chunk:" ++ (env.uuid_str document_id ++ (text ":" ++ decimal i))

module _ (env : Env) (document_id : Uuid)
    (no_collision : (i j : ℕ)
      → env.uuid5 (chunk_name env document_id i) ≡ env.uuid5 (chunk_name env document_id j)
      → chunk_name env document_id i ≡ chunk_name env document_id j) where
  abbrev chunk_id : TextChunk → Uuid
  chunk_id c = chunk_vector_id env document_id c.index

  -- Chunks with different indices have different ids.
  chunk_id-injective :
      (i j : ℕ) → chunk_vector_id env document_id i ≡ chunk_vector_id env document_id j → i ≡ j
  unfolding chunk_vector_id
  chunk_id-injective i j h = decimal-injective i j (
      append_cancel (text ":") (decimal i) (decimal j) (
        append_cancel (env.uuid_str document_id) (text ":" ++ decimal i) (text ":" ++ decimal j) (
          append_cancel (text "knowledge-chunk:")
            (env.uuid_str document_id ++ (text ":" ++ decimal i))
            (env.uuid_str document_id ++ (text ":" ++ decimal j)) (no_collision i j h))))

  later_differ :
      (i k : ℕ) (texts : List Text)
      → i < k
      → exists (λ j. j == chunk_vector_id env document_id i) (map chunk_id (enumerate_from k texts))
        ≡ false
  unfolding enumerate_from exists
  later_differ i k [] h = refl
  later_differ i k (t ∷ texts) h =
      ground (arith, later_differ i (k + 1) texts, chunk_id-injective k i)

  ids_from : (k : ℕ) (texts : List Text) → AreDistinct (map chunk_id (enumerate_from k texts))
  unfolding enumerate_from
  ids_from k [] = tt
  ids_from k (t ∷ texts) = (later_differ k (k + 1) texts (omega arith), ids_from (k + 1) texts)

  -- Where UUIDv5 gives different ids to the different names of the document's chunks, no two chunks
  -- of a text have the same point id, whatever the text, the configuration and the library's
  -- splitter are.
  pub ids-AreDistinct :
      (split_text : ChunkingConfig → Text → List Text) (source : Text) (config : ChunkingConfig)
      → AreDistinct (map chunk_id (split split_text source config))
  unfolding split
  ids-AreDistinct split_text source config = ids_from 0 (split_text config source)
