-- ===== src/Vector.antt =====
-- Chunks, embeddings and points (app/domain/chunking/entities.py, embeddings/entities.py,
-- embeddings/providers.py, vector_store/entities.py, parsers/entities.py). A float is only passed
-- on, so it stands as the number of its bit pattern.
use cortex_rag.Base.{ℕ, List, [], ◌∷◌, ◌==◌, if◌then◌else◌, nat_eq, length, Text, text_eq}
use cortex_rag.Job.{Uuid}

pub record TextChunk : Type 0 where
  pub index : ℕ
  pub content : Text

pub record ChunkingConfig : Type 0 where
  pub chunk_size : ℕ
  pub chunk_overlap : ℕ

-- `ChunkingConfig()`
abbrev pub default_chunking : ChunkingConfig
default_chunking = record { chunk_size = 1000; chunk_overlap = 200 }

abbrev pub Float : Type 0
Float = ℕ

pub record Embedding : Type 0 where
  pub vector : List Float
  pub model : Text

-- `Embedding.dimension`
abbrev pub dimension : Embedding → ℕ
dimension e = length e.vector

pub data EmbeddingTaskType : Type 0 where
  document_task query_task : EmbeddingTaskType

-- A value of a payload: a text, an int, or anything else with its `str`.
pub data Value : Type 0 where
  str_value : Text → Value
  int_value : ℕ → Value
  other_value : Text → Value

abbrev pub Payload : Type 0
Payload = List (Text × Value)

-- `payload.get(key, default)`
unfoldable pub payload_get : Text → Value → Payload → Value
payload_get key default [] = default
payload_get key default ((k, v) ∷ payload) = if k == key then v else payload_get key default payload

pub record VectorPoint : Type 0 where
  pub id : Uuid
  pub vector : List Float
  pub payload : Payload

pub record SearchResult : Type 0 where
  pub id : Uuid
  pub score : Float
  pub payload : Payload

pub record ParsedDocument : Type 0 where
  pub parsed_text : Text
  pub page_count : ℕ
  pub metadata : List (Text × Text)

-- A call of the vector store.
pub data VectorCall : Type 0 where
  upserted : List VectorPoint → VectorCall
  searched : List Float → ℕ → Payload → VectorCall
  deleted_ids : List Text → VectorCall
