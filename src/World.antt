-- ===== src/World.antt =====
-- The state that a request or a job works on, and what lies outside the repository. The five tables
-- are lists of rows in the order of insertion. A service outside the repository (storage, vector
-- store, broker, embedding model, LLM, parser, text splitter, hash, UUIDs, clock) is a function of
-- what it is asked and of what it was told before: its calls so far stand in the state, and what it
-- answers is a field of `Env`.
use cortex_rag.Base.{ℕ, ◌+◌, Option, List, [], ◌∷◌, ◌++◌, ℤ, Text}
use cortex_rag.Exec.{Result, ok, err, Exec}
use cortex_rag.Job.{Uuid, Time}
use cortex_rag.Document.{DocumentRow, VersionRow}
use cortex_rag.Events.{DomainEvent}
use cortex_rag.Conversation.{LlmMessage, LlmCompletion, ConversationRow, MessageRow}
use cortex_rag.Vector.{
  TextChunk, ChunkingConfig, Float, Embedding, EmbeddingTaskType, Payload, VectorPoint,
  SearchResult, ParsedDocument, VectorCall, upserted, searched,
}

abbrev pub Bytes : Type 0
Bytes = List ℕ

-- `ProcessingJobModel`
pub record JobRow : Type 0 where
  pub id : Uuid
  pub document_id : Uuid
  pub version_id : Option Uuid
  pub tenant_id : Text
  pub job_type : Text
  pub status : Text
  pub priority : ℤ
  pub retry_count : ℕ
  pub progress : ℕ
  pub worker_name : Option Text
  pub error_message : Option Text
  pub started_at : Option Time
  pub finished_at : Option Time
  pub created_at : Time
  pub updated_at : Time

pub record Database : Type 0 where
  pub documents : List DocumentRow
  pub versions : List VersionRow
  pub jobs : List JobRow
  pub conversations : List ConversationRow
  pub messages : List MessageRow

pub record World : Type 0 where
  pub db : Database
  pub open db use *
  -- `now()` of the database in this transaction
  pub server_now : Time
  -- how many UUIDs have been drawn, and how often the clock has been read
  pub draws : ℕ
  pub readings : ℕ
  pub saved : List (Text × Bytes)
  -- the calls of the vector store so far
  pub vector_calls : List VectorCall
  pub published : List DomainEvent
  pub enqueued : List (Text × Uuid)

abbrev pub Action : Type 0 → Type 0
Action A = Exec World A

pub record Env : Type 0 where
  pub uuid4 : ℕ → Uuid
  pub now : ℕ → Time
  pub year : Time → ℕ
  pub month : Time → ℕ
  -- `str.lower`, `sha256(content).hexdigest()`, `str(uuid)`, `uuid5(NAMESPACE_URL, name)`
  pub lower : Text → Text
  pub sha256_hex : Bytes → Text
  pub uuid_str : Uuid → Text
  pub uuid5 : Text → Uuid
  -- `str` of a list of texts
  pub repr_list : List Text → Text
  -- what an UPDATE leaves in `updated_at`, from the row before it and the row that it writes
  pub document_updated_at : DocumentRow → DocumentRow → Time
  pub job_updated_at : JobRow → JobRow → Time
  -- what the database says of a key that is there already
  pub duplicate_key : Text
  pub save : List (Text × Bytes) → Text → Bytes → Result Text
  pub load : List (Text × Bytes) → Text → Result Bytes
  pub parse : Bytes → Text → Result ParsedDocument
  pub split : Text → ChunkingConfig → List TextChunk
  pub embed_text : Text → EmbeddingTaskType → Result Embedding
  pub embed_batch : List Text → EmbeddingTaskType → Result (List Embedding)
  pub upsert : List VectorCall → List VectorPoint → Result (Unit {0})
  pub search : List VectorCall → List Float → ℕ → Payload → Result (List SearchResult)
  pub complete : List LlmMessage → Result LlmCompletion
  pub enqueue : List (Text × Uuid) → Text → Uuid → Result (Unit {0})

-- A call of a service that may refuse: what it was told is recorded if it returns.
abbrev pub record_call {ℓ} : {A : Type ℓ} → Result A → (World → World) → Exec World A
record_call (ok a) f w = (ok a, f w)
record_call (err e) f w = (err e, w)

-- The sites that `publish` an event: `LoggingEventPublisher` writes it to the log.
unfoldable pub publish : DomainEvent → Action (Unit {0})
publish event w = (ok tt, record w { published = w.published ++ (event ∷ []) })

module _ (env : Env) where
  unfoldable pub draw_uuid : Action Uuid
  draw_uuid w = (ok (env.uuid4 w.draws), record w { draws = w.draws + 1 })

  unfoldable pub read_clock : Action Time
  read_clock w = (ok (env.now w.readings), record w { readings = w.readings + 1 })

  unfoldable pub save_bytes : Text → Bytes → Action Text
  save_bytes key content w =
      record_call (env.save w.saved key content)
        (λ w. record w { saved = w.saved ++ ((key, content) ∷ []) }) w

  unfoldable pub load_bytes : Text → Action Bytes
  load_bytes key w = (env.load w.saved key, w)

  -- The vector store is told of every call, also of one that raises: what it answers depends on all
  -- calls before, since any of them may have created the collection.
  unfoldable pub upsert_points : List VectorPoint → Action (Unit {0})
  upsert_points points w = (
    env.upsert w.vector_calls points,
    record w { vector_calls = w.vector_calls ++ (upserted points ∷ []) },
  )

  unfoldable pub search_points : List Float → ℕ → Payload → Action (List SearchResult)
  search_points vector limit filters w = (
    env.search w.vector_calls vector limit filters,
    record w { vector_calls = w.vector_calls ++ (searched vector limit filters ∷ []) },
  )

  unfoldable pub enqueue_job : Text → Uuid → Action (Unit {0})
  enqueue_job tenant_id job_id w =
      record_call (env.enqueue w.enqueued tenant_id job_id)
        (λ w. record w { enqueued = w.enqueued ++ ((tenant_id, job_id) ∷ []) }) w
