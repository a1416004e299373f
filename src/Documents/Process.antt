-- ===== src/Documents/Process.antt =====
-- `ProcessDocumentUseCase` (process_document.py).
pub mod Points
pub mod Effect
use cortex_rag.Base.{ℕ, some, List, [], ◌∷◌, ◌++◌, map, Text, text}
use cortex_rag.Base.Str.{decimal}
use cortex_rag.Exec.{
  entity_not_found, validation, Exception, value_error, new_error, Result, ok, err, and_then, lift,
  or_raise, ◌>>=◌, ◌>>◌,
}
use cortex_rag.Status.{processed}
use cortex_rag.Job.{Uuid}
use cortex_rag.Vector.{
  TextChunk, default_chunking, Embedding, document_task, str_value, int_value, VectorPoint,
}
use cortex_rag.World.{Action, Env, load_bytes, upsert_points}
use cortex_rag.Repo.Documents

module _ (env : Env) where
  -- `_chunk_vector_id`
  unfoldable pub chunk_vector_id : Uuid → ℕ → Uuid
  unfolding decimal
  chunk_vector_id document_id chunk_index =
      env.uuid5
        (text "knowledge-chunk:" ++ (env.uuid_str document_id ++ (text ":" ++ decimal chunk_index)))

  abbrev pub point_of : Text → Uuid → TextChunk → Embedding → VectorPoint
  point_of tenant_id document_id chunk e = record {
    id = chunk_vector_id document_id chunk.index;
    vector = e.vector;
    payload =
        (text "tenant_id", str_value tenant_id)
        ∷ (text "document_id", str_value (env.uuid_str document_id))
        ∷ (text "chunk_index", int_value chunk.index)
        ∷ (text "content", str_value chunk.content)
        ∷ [];
  }

  abbrev unequal_lengths : Exception
  unequal_lengths = value_error (text "zip() arguments differ in length")

  -- The points of `zip(chunks, vectors, strict=True)`.
  unfoldable pub points_of :
      Text → Uuid → List TextChunk → List Embedding → Result (List VectorPoint)
  points_of tenant_id document_id [] [] = ok []
  points_of tenant_id document_id (c ∷ cs) (e ∷ es) =
      and_then (points_of tenant_id document_id cs es)
        (λ rest. ok (point_of tenant_id document_id c e ∷ rest))
  points_of tenant_id document_id [] (e ∷ es) = err unequal_lengths
  points_of tenant_id document_id (c ∷ cs) [] = err unequal_lengths

  -- `if chunks:` embed and upsert
  unfoldable pub index_chunks : Text → Uuid → List TextChunk → Action (Unit {0})
  unfolding points_of upsert_points
  index_chunks tenant_id document_id [] w = (ok tt, w)
  index_chunks tenant_id document_id (c ∷ cs) w =
      (lift (env.embed_batch (map (λ chunk. chunk.content) (c ∷ cs)) document_task) >>= λ vectors.
      lift (points_of tenant_id document_id (c ∷ cs) vectors) >>= upsert_points env)
        w

  abbrev pub document_not_found_for : Uuid → Text → Exception
  document_not_found_for document_id tenant_id = new_error entity_not_found (
      some (
        text "Document "
        ++ (env.uuid_str document_id
            ++ (text " not found for tenant " ++ (tenant_id ++ text ".")))))

  abbrev no_active_version : Uuid → Exception
  no_active_version document_id = new_error validation (
      some (
        text "Document "
        ++ (env.uuid_str document_id ++ text " has no active version to process.")))

  unfoldable pub process_document : Text → Uuid → Action (Unit {0})
  unfolding load_bytes index_chunks Documents.get Documents.update
  process_document tenant_id document_id = do
    found ← Documents.get env tenant_id document_id
    document ← or_raise (document_not_found_for document_id tenant_id) found
    version ← or_raise (no_active_version document_id) document.active_version
    content ← load_bytes env version.storage_path
    parsed ← lift (env.parse content version.mime_type)
    index_chunks tenant_id document.id (env.split parsed.parsed_text default_chunking)
    Documents.update env (record document { status = processed })
