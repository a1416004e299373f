-- ===== src/Documents/Upload.antt =====
-- `UploadDocumentUseCase` (upload_document.py).
pub mod Effect
pub mod Duplicates
pub mod Found
pub mod Rows
use cortex_rag.Base.{Option, none, some, [], ◌++◌, length, Text, text}
use cortex_rag.Exec.{conflict, Exception, new_error, pure, raise, lift, ◌>>=◌, ◌>>◌}
use cortex_rag.Status.{uploaded, local}
use cortex_rag.Job.{document_ingestion, Uuid, Time}
use cortex_rag.SourceType.{from_extension}
use cortex_rag.Metadata.{empty_metadata}
use cortex_rag.Document.{KnowledgeDocumentVersion, KnowledgeDocument}
use cortex_rag.Events.{document_uploaded}
use cortex_rag.World.{Action, Env, publish, draw_uuid, read_clock, save_bytes}
use cortex_rag.Settings.{UploadSettings, ProcessingSettings}
use cortex_rag.StoragePolicy.{build_document_version_key}
use cortex_rag.Validation.{validate_upload}
use cortex_rag.Processing.Create.{CreateProcessingJobInput, create_processing_job}
use cortex_rag.Documents.View.{DocumentView, document_view, UploadDocumentInput}
use cortex_rag.Repo.Documents

module _ (env : Env) where
  -- `f"{version_id}.{extension}"`
  abbrev pub version_filename : Uuid → Text → Text
  version_filename version_id extension = env.uuid_str version_id ++ (text "." ++ extension)

  abbrev duplicate_upload : Text → KnowledgeDocument → Exception
  duplicate_upload checksum existing = new_error conflict (
      some (
        text "Document already exists with checksum "
        ++ (checksum ++ (text " (id=" ++ (env.uuid_str existing.id ++ text ").")))))

  -- `if existing is not None: raise ConflictError(…)`
  abbrev require_new : Text → Option KnowledgeDocument → Action (Unit {0})
  require_new checksum none = pure tt
  require_new checksum (some existing) = raise (duplicate_upload checksum existing)

  abbrev pub first_version :
      UploadDocumentInput → Text → Text → Uuid → Uuid → Time → KnowledgeDocumentVersion
  first_version input extension storage_key document_id version_id now = record {
    id = version_id;
    document_id = document_id;
    version_number = 1;
    original_filename = input.original_filename;
    filename = version_filename version_id extension;
    extension = extension;
    mime_type = input.content_type;
    size = length input.content;
    checksum_sha256 = env.sha256_hex input.content;
    storage_provider = local;
    storage_path = storage_key;
    page_count = none;
    metadata = [];
    uploaded_by = input.uploaded_by;
    created_at = some now;
  }

  abbrev pub new_document :
      UploadDocumentInput → Text → KnowledgeDocumentVersion → Time → KnowledgeDocument
  new_document input extension version now = record {
    id = version.document_id;
    tenant_id = input.tenant_id;
    title = input.original_filename;
    source_type = from_extension env.lower extension;
    knowledge_space_id = input.knowledge_space_id;
    current_version_id = some version.id;
    status = uploaded;
    metadata = empty_metadata;
    created_by = input.uploaded_by;
    created_at = some now;
    updated_at = some now;
    deleted_at = none;
    active_version = some version;
  }

  -- The job that the upload registers.
  abbrev pub ingestion_of : KnowledgeDocument → KnowledgeDocumentVersion → CreateProcessingJobInput
  ingestion_of document version = record {
    tenant_id = document.tenant_id;
    document_id = document.id;
    version_id = some version.id;
    job_type = document_ingestion;
    priority = none;
  }

  unfoldable pub upload_document :
      UploadSettings → ProcessingSettings → UploadDocumentInput → Action DocumentView
  unfolding draw_uuid read_clock save_bytes publish Documents.get_by_checksum Documents.add
  upload_document settings processing_settings input = do
    extension ←
        lift (validate_upload env settings input.original_filename input.content input.content_type)
    let checksum = env.sha256_hex input.content
    existing ← Documents.get_by_checksum env input.tenant_id checksum
    require_new checksum existing
    document_id ← draw_uuid env
    version_id ← draw_uuid env
    now ← read_clock env
    let storage_key =
        build_document_version_key env input.tenant_id document_id version_id extension now
    save_bytes env storage_key input.content
    let version = first_version input extension storage_key document_id version_id now
    let document = new_document input extension version now
    Documents.add env document version
    publish (
        document_uploaded document.id document.tenant_id version.id version.version_number checksum)
    create_processing_job env processing_settings (ingestion_of document version)
    pure (document_view document)
