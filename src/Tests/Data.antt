-- ===== src/Tests/Data.antt =====
-- A small deployment: services that accept what they are given, and empty tables.
use cortex_rag.Base.{
  ◌+◌, none, some, List, [], ◌∷◌, ◌==◌, if◌then◌else◌, nat_eq, length, pos, Text, text, text_eq,
}
use cortex_rag.Exec.{external_error, Result, ok, err}
use cortex_rag.Status.{uploaded, queued, local}
use cortex_rag.Job.{document_ingestion, ProcessingJob}
use cortex_rag.Metadata.{empty_metadata}
use cortex_rag.SourceType.{text_file}
use cortex_rag.Document.{
  KnowledgeDocumentVersion, KnowledgeDocument, version_to_model, doc_to_model,
}
use cortex_rag.Vector.{TextChunk, Embedding}
use cortex_rag.World.{Bytes, World, Env}
use cortex_rag.Settings.{UploadSettings, ProcessingSettings}
use cortex_rag.Documents.View.{UploadDocumentInput}
use cortex_rag.Processing.Create.{CreateProcessingJobInput}

abbrev pub tenant : Text
tenant = text "acme"

abbrev load_from : List (Text × Bytes) → Text → Result Bytes
load_from [] key = err (external_error (text "no such file"))
load_from ((k, content) ∷ files) key = if k == key then ok content else load_from files key

abbrev one_chunk : Text → List TextChunk
one_chunk [] = []
one_chunk (c ∷ s) = record { index = 0; content = c ∷ s } ∷ []

abbrev vectors_of : List Text → List Embedding
vectors_of [] = []
vectors_of (t ∷ ts) = record { vector = 1 ∷ []; model = text "m" } ∷ vectors_of ts

-- UUIDs count from 100, instants from 1000; the hash and `str.lower` change nothing, as the texts
-- here are in lower case.
abbrev pub env : Env
env = record {
  uuid4 = λ n. 100 + n;
  now = λ n. 1000 + n;
  year = λ _. 2026;
  month = λ _. 7;
  lower = λ s. s;
  sha256_hex = λ s. s;
  uuid_str = λ i. i ∷ [];
  uuid5 = length;
  repr_list = λ _. [];
  document_updated_at = λ _ d. d.updated_at;
  job_updated_at = λ _ j. j.updated_at;
  duplicate_key = text "duplicate key";
  save = λ _ key _. ok key;
  load = load_from;
  parse = λ content _. ok (record { parsed_text = content; page_count = 1; metadata = [] });
  split = λ s _. one_chunk s;
  embed_text = λ _ _. ok (record { vector = 1 ∷ []; model = text "m" });
  embed_batch = λ ts _. ok (vectors_of ts);
  upsert = λ _ _. ok tt;
  search = λ _ _ _ _. ok [];
  complete = λ _. ok (record { content = text "yes"; model = text "m" });
  enqueue = λ _ _ _. ok tt;
}

abbrev pub empty_world : World
empty_world = record {
  db = record { documents = []; versions = []; jobs = []; conversations = []; messages = [] };
  server_now = 7;
  draws = 0;
  readings = 0;
  saved = [];
  vector_calls = [];
  published = [];
  enqueued = [];
}

abbrev pub upload_settings : UploadSettings
upload_settings = record {
  max_size_mb = pos 1;
  allowed_extensions = text "txt" ∷ [];
  allowed_mime_types = text "text/plain" ∷ [];
}

abbrev pub processing_settings : ProcessingSettings
processing_settings = record { max_retries = pos 2; default_priority = pos 5 }

abbrev pub queued_job : ProcessingJob
queued_job = record {
  id = 11;
  document_id = 1;
  tenant_id = tenant;
  job_type = document_ingestion;
  status = queued;
  version_id = none;
  priority = pos 5;
  retry_count = 0;
  progress = 0;
  worker_name = none;
  error_message = none;
  started_at = none;
  finished_at = none;
  created_at = some 7;
  updated_at = some 7;
}

abbrev pub job_input : CreateProcessingJobInput
job_input = record {
  tenant_id = tenant;
  document_id = 1;
  version_id = none;
  job_type = document_ingestion;
  priority = none;
}

abbrev pub note : UploadDocumentInput
note = record {
  tenant_id = tenant;
  original_filename = text "a.txt";
  content = text "hi";
  content_type = text "text/plain";
  uploaded_by = none;
  knowledge_space_id = none;
}

abbrev pub the_version : KnowledgeDocumentVersion
the_version = record {
  id = 2;
  document_id = 1;
  version_number = 1;
  original_filename = text "a.txt";
  filename = text "2.txt";
  extension = text "txt";
  mime_type = text "text/plain";
  size = 2;
  checksum_sha256 = text "hi";
  storage_provider = local;
  storage_path = text "k";
  page_count = none;
  metadata = [];
  uploaded_by = none;
  created_at = some 7;
}

abbrev pub the_document : KnowledgeDocument
the_document = record {
  id = 1;
  tenant_id = tenant;
  title = text "a.txt";
  source_type = text_file;
  knowledge_space_id = none;
  current_version_id = some 2;
  status = uploaded;
  metadata = empty_metadata;
  created_by = none;
  created_at = some 7;
  updated_at = some 7;
  deleted_at = none;
  active_version = some the_version;
}

-- The world with that document, its version and its file.
abbrev pub stocked : World
stocked = record empty_world {
  db = record empty_world.db {
    documents = doc_to_model 7 the_document ∷ [];
    versions = version_to_model 7 the_version ∷ [];
  };
  saved = (text "k", text "hi") ∷ [];
}
