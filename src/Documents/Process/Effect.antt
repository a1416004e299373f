-- ===== src/Documents/Process/Effect.antt =====
-- What processing a document leaves.
use cortex_rag.Base.{
  ◌≡◌, ◌≢◌, false, some, List, [], ◌∷◌, ◌++◌, map, arith, ◌==◌, if◌then◌else◌, nat_eq, length, Text,
  text, text_eq,
}
use cortex_rag.Exec.{Result, ok, is_ok}
use cortex_rag.Job.{Uuid}
use cortex_rag.Document.{KnowledgeDocumentVersion, KnowledgeDocument, DocumentRow}
use cortex_rag.Vector.{
  TextChunk, default_chunking, Embedding, document_task, VectorPoint, ParsedDocument, upserted,
}
use cortex_rag.World.{Bytes, World, Env, load_bytes, upsert_points}
use cortex_rag.Repo.Documents.{by_id, set_documents}
use cortex_rag.Repo.Documents.Laws.{get_keeps}
use cortex_rag.Repo.Sql.{update_first}
use cortex_rag.Documents.Process.{index_chunks, process_document}
use cortex_rag.Documents.Process.Points.{IsBatch, points_of_ok, points_of_iff}
use cortex_rag.Metadata.Column.{model_dump}
use cortex_rag.Repo.Documents

-- The row of a processed document, which has the document's fields; a row of another tenant is kept.
abbrev pub processed_row : Env → KnowledgeDocument → DocumentRow → DocumentRow
processed_row env document d =
    let new = record d {
      title = document.title;
      knowledge_space_id = document.knowledge_space_id;
      status = text "processed";
      meta = model_dump document.metadata;
      current_version_id = document.current_version_id;
      deleted_at = document.deleted_at;
    } in
    if d.tenant_id == document.tenant_id
    then record new { updated_at = env.document_updated_at d new }
    else d

module _ (env : Env) (tenant_id : Text) (document_id : Uuid) (w : World)
    (document : KnowledgeDocument) (version : KnowledgeDocumentVersion) (content : Bytes)
    (parsed : ParsedDocument)
    (read : (Documents.get env tenant_id document_id w).0 ≡ ok (some document))
    (active : document.active_version ≡ some version)
    (loaded : env.load w.saved version.storage_path ≡ ok content)
    (was_parsed : env.parse content version.mime_type ≡ ok parsed) where
  abbrev pub chunks_of : List TextChunk
  chunks_of = env.split parsed.parsed_text default_chunking

  abbrev process_it : Result (Unit {0}) × World
  process_it = process_document env tenant_id document_id w

  -- Processing a readable document without any text marks it as processed, and tells the vector store
  -- nothing.
  pub process_empty :
      chunks_of ≡ []
      → process_it
        ≡ (ok tt, set_documents (update_first (by_id document.id) (processed_row env document)) w)
  unfolding process_document index_chunks load_bytes Documents.update
  process_empty empty = ground (arith, get_keeps env tenant_id document_id w)

  -- Processing a readable document with text, where the embedder gives one vector for each chunk and
  -- the vector store accepts their points: the store is sent one batch, with one point for each chunk
  -- in the order of the chunks, whose id is made of the document's id and the chunk's index, and which
  -- carries the chunk's vector, the tenant, the document's id, the index and the chunk's text; the
  -- document's row, and no other, is written, with the status `processed`; and nothing else changes.
  pub process_indexed :
      (c : TextChunk) (cs : List TextChunk) (vectors : List Embedding)
      → chunks_of ≡ c ∷ cs
      → env.embed_batch (map (λ chunk. chunk.content) (c ∷ cs)) document_task ≡ ok vectors
      → length (c ∷ cs) ≡ length vectors
      → ((ps : List VectorPoint)
          → IsBatch env tenant_id document.id (c ∷ cs) vectors ps
          → env.upsert w.vector_calls ps ≡ ok tt)
      → (ps : List VectorPoint) × IsBatch env tenant_id document.id (c ∷ cs) vectors ps
        × (process_it ≡ (
          ok tt,
          set_documents
              (update_first (by_id document.id) (processed_row env document))
              (record w { vector_calls = w.vector_calls ++ (upserted ps ∷ []) }),
        ))
  unfolding process_document index_chunks load_bytes upsert_points Documents.update
  process_indexed c cs vectors split_into embedded same_length accepts =
      let (ps, made, batch) = points_of_ok env tenant_id document.id (c ∷ cs) vectors same_length in
      (ps, batch, ground (arith, get_keeps env tenant_id document_id w, made, accepts ps batch))

  -- Where the embedder gives more or fewer vectors than there are chunks, processing raises, the
  -- vector store is told nothing and no row is changed.
  pub process_mismatch :
      (c : TextChunk) (cs : List TextChunk) (vectors : List Embedding)
      → chunks_of ≡ c ∷ cs
      → env.embed_batch (map (λ chunk. chunk.content) (c ∷ cs)) document_task ≡ ok vectors
      → length (c ∷ cs) ≢ length vectors
      → (is_ok process_it.0 ≡ false) × (process_it.1 ≡ w)
  unfolding process_document index_chunks load_bytes
  process_mismatch c cs vectors split_into embedded differ = ground (
    arith,
    get_keeps env tenant_id document_id w,
    points_of_iff env tenant_id document.id (c ∷ cs) vectors,
  )
