-- ===== src/Api/Dependencies.antt =====
-- The composition root (app/api/dependencies.py): each service that the use cases take is bound to
-- its adapter, with its settings, and each use case to its services.
use cortex_rag.Base.{ℕ, Option, none, some, List, [], ◌∷◌, Text, text}
use cortex_rag.Exec.{Result, and_then}
use cortex_rag.World.{Bytes, Action, Env}
use cortex_rag.Vector.{ChunkingConfig, Float, Payload, VectorPoint, SearchResult, VectorCall}
use cortex_rag.Job.{Uuid}
use cortex_rag.Settings.{UploadSettings, ProcessingSettings, ChatSettings}
use cortex_rag.Settings.Groups.{VectorSettings, url, Settings}
use cortex_rag.Adapters.FastEmbed.{EmbeddingModel, first_of, embed_uncached}
use cortex_rag.Adapters.Gemini.{Generated, Content}
use cortex_rag.Adapters.PyMuPdf.{PdfDocument}
use cortex_rag.Documents.View.{
  DocumentView, UploadDocumentInput, UpdateDocumentMetadataInput, ListDocumentsInput,
  ListDocumentsOutput, GetDocumentInput,
}
use cortex_rag.Documents.Upload.{upload_document}
use cortex_rag.Documents.Manage.{
  get_document, list_documents, delete_document, update_document_metadata,
}
use cortex_rag.Documents.Process.{process_document}
use cortex_rag.Processing.Create.{JobView, CreateProcessingJobInput, create_processing_job}
use cortex_rag.Processing.Query.{
  get_processing_job, ListJobsInput, ListJobsOutput, list_processing_jobs,
}
use cortex_rag.Chat.Answer.{
  SearchHit, AnswerQuestionInput, AnswerQuestionOutput, semantic_search, answer_question,
}
use cortex_rag.Adapters.Gemini
use cortex_rag.Adapters.Chunker
use cortex_rag.Adapters.PyMuPdf

-- What lies outside the repository: what Python, the database and the libraries give. A client is
-- made of the settings that its adapter is given.
pub record Libraries : Type 0 where
  -- the ids, the clock and the texts: `complete` and the other services of it are not looked at
  pub base : Env
  -- `LocalStorageProvider` of a directory
  pub save_file : Text → List (Text × Bytes) → Text → Bytes → Result Text
  pub load_file : Text → List (Text × Bytes) → Text → Result Bytes
  -- `TextEmbedding` of a model's name
  pub load_model : Text → Result EmbeddingModel
  -- `generate_content` of a client with the API key, for a model
  pub generate_content : Text → Text → List Content → Option Text → Generated
  -- Qdrant with its adapter, under host, port, collection and vector size, by the calls before
  pub upsert_into : VectorSettings → List VectorCall → List VectorPoint → Result (Unit {0})
  pub search_in :
      VectorSettings → List VectorCall → List Float → ℕ → Payload → Result (List SearchResult)
  -- PyMuPDF's `open`, and the text splitter
  pub open_pdf : Bytes → Result PdfDocument
  pub split_text : ChunkingConfig → Text → List Text
  -- the broker with its adapter, under its URL and the name of the queue, by the accepted messages
  pub enqueue_at : Text → Text → List (Text × Uuid) → Text → Uuid → Result (Unit {0})

-- `X-Tenant-Id`, with its default, and `X-User-Id`.
pub record Headers : Type 0 where
  pub x_tenant_id : Option Text
  pub x_user_id : Option Text

abbrev pub get_tenant_id : Headers → Text
get_tenant_id h = elim h.x_tenant_id [ none ↦ text "default" | some t ↦ t ]

abbrev pub get_uploaded_by : Headers → Option Text
get_uploaded_by h = h.x_user_id

-- `get_upload_settings`, `get_processing_settings` and `get_chat_settings`
abbrev pub get_upload_settings : Settings → UploadSettings
get_upload_settings settings = settings.upload

abbrev pub get_processing_settings : Settings → ProcessingSettings
get_processing_settings settings = settings.processing

abbrev pub get_chat_settings : Settings → ChatSettings
get_chat_settings settings = settings.chat

module _ (lib : Libraries) (settings : Settings) where
  -- The services of `get_storage_provider`, `get_embedding_provider`, `get_llm_provider`,
  -- `get_vector_repository`, `get_parser_provider`, `get_chunking_strategy` and `get_job_queue`. The
  -- vector store with its adapter answers by all upserts and searches before, any of which may have
  -- created the collection, and the queue with its adapter by the messages that it has accepted; the
  -- state that the adapters keep stands in Adapters/Qdrant.antt and Adapters/RabbitMq.antt. The
  -- embedder is `embed_uncached`: the cache of the models is transparent (Adapters/FastEmbed.antt).
  unfoldable pub services : Env
  unfolding Chunker.split Gemini.complete PyMuPdf.parse_pdf
  services = record lib.base {
    save = lib.save_file settings.storage.local_path;
    load = lib.load_file settings.storage.local_path;
    embed_text = λ s t.
        and_then (embed_uncached lib.load_model settings.embedding.model (s ∷ []) t) first_of;
    embed_batch = embed_uncached lib.load_model settings.embedding.model;
    complete =
        Gemini.complete (lib.generate_content settings.gemini.api_key settings.gemini.model)
          settings.gemini.model;
    upsert = lib.upsert_into settings.vector;
    search = lib.search_in settings.vector;
    parse = PyMuPdf.parse lib.open_pdf;
    split = Chunker.split lib.split_text;
    enqueue = lib.enqueue_at (url settings.rabbitmq) settings.rabbitmq.queue;
  }

  abbrev pub get_upload_document_use_case : UploadDocumentInput → Action DocumentView
  get_upload_document_use_case =
      upload_document services (get_upload_settings settings) (get_processing_settings settings)

  abbrev pub get_get_document_use_case : GetDocumentInput → Action DocumentView
  get_get_document_use_case = get_document services

  abbrev pub get_list_documents_use_case : ListDocumentsInput → Action ListDocumentsOutput
  get_list_documents_use_case = list_documents services

  abbrev pub get_delete_document_use_case : GetDocumentInput → Action (Unit {0})
  get_delete_document_use_case = delete_document services

  abbrev pub get_update_document_metadata_use_case :
      UpdateDocumentMetadataInput → Action DocumentView
  get_update_document_metadata_use_case = update_document_metadata services

  abbrev pub get_process_document_use_case : Text → Uuid → Action (Unit {0})
  get_process_document_use_case = process_document services

  abbrev pub get_create_processing_job_use_case : CreateProcessingJobInput → Action JobView
  get_create_processing_job_use_case =
      create_processing_job services (get_processing_settings settings)

  abbrev pub get_list_processing_jobs_use_case : ListJobsInput → Action ListJobsOutput
  get_list_processing_jobs_use_case = list_processing_jobs

  abbrev pub get_get_processing_job_use_case : Text → Uuid → Action JobView
  get_get_processing_job_use_case = get_processing_job services

  abbrev pub get_answer_question_use_case : AnswerQuestionInput → Action AnswerQuestionOutput
  get_answer_question_use_case = answer_question services (get_chat_settings settings)

  abbrev pub get_semantic_search_use_case : Text → Text → ℕ → Action (List SearchHit)
  get_semantic_search_use_case = semantic_search services
