-- ===== src/Document.antt =====
-- Documents and their versions (app/domain/documents/entities.py), the rows that hold them and the
-- mapping between the two (sqlalchemy/models.py and the helpers of document_repository.py).
pub mod Mapping
use cortex_rag.Base.{ℕ, Bool, Option, some, is_some, Text}
use cortex_rag.Exec.{Result, ok, and_then}
use cortex_rag.Status.{
  DocumentStatus, StorageProviderKind, document_status_value, document_status_from,
  storage_provider_value, storage_provider_from,
}
use cortex_rag.Job.{Uuid, Time}
use cortex_rag.SourceType.{SourceType, source_type_value, source_type_from}
use cortex_rag.Metadata.{KnowledgeMetadata}
use cortex_rag.Metadata.Column.{JsonDict, MetadataColumn, model_validate, model_dump}

pub record KnowledgeDocumentVersion : Type 0 where
  pub id : Uuid
  pub document_id : Uuid
  pub version_number : ℕ
  pub original_filename : Text
  pub filename : Text
  pub extension : Text
  pub mime_type : Text
  pub size : ℕ
  pub checksum_sha256 : Text
  pub storage_provider : StorageProviderKind
  pub storage_path : Text
  pub page_count : Option ℕ
  pub metadata : JsonDict
  pub uploaded_by : Option Text
  pub created_at : Option Time

pub record KnowledgeDocument : Type 0 where
  pub id : Uuid
  pub tenant_id : Text
  pub title : Text
  pub source_type : SourceType
  pub knowledge_space_id : Option Uuid
  pub current_version_id : Option Uuid
  pub status : DocumentStatus
  pub metadata : KnowledgeMetadata
  pub created_by : Option Text
  pub created_at : Option Time
  pub updated_at : Option Time
  pub deleted_at : Option Time
  pub active_version : Option KnowledgeDocumentVersion

-- `KnowledgeDocument.is_deleted`
abbrev pub is_deleted : KnowledgeDocument → Bool
is_deleted document = is_some document.deleted_at

-- `KnowledgeDocumentModel`
pub record DocumentRow : Type 0 where
  pub id : Uuid
  pub tenant_id : Text
  pub knowledge_space_id : Option Uuid
  pub title : Text
  pub source_type : Text
  pub current_version_id : Option Uuid
  pub status : Text
  pub meta : MetadataColumn
  pub created_by : Option Text
  pub deleted_at : Option Time
  pub created_at : Time
  pub updated_at : Time

-- `KnowledgeDocumentVersionModel`
pub record VersionRow : Type 0 where
  pub id : Uuid
  pub document_id : Uuid
  pub version_number : ℕ
  pub original_filename : Text
  pub filename : Text
  pub extension : Text
  pub mime_type : Text
  pub size : ℕ
  pub checksum_sha256 : Text
  pub storage_provider : Text
  pub storage_path : Text
  pub page_count : Option ℕ
  pub meta : JsonDict
  pub uploaded_by : Option Text
  pub created_at : Time

-- `_version_to_entity`
unfoldable pub version_to_entity : VersionRow → Result KnowledgeDocumentVersion
version_to_entity model = and_then (storage_provider_from model.storage_provider) (λ provider.
    ok (record {
      id = model.id;
      document_id = model.document_id;
      version_number = model.version_number;
      original_filename = model.original_filename;
      filename = model.filename;
      extension = model.extension;
      mime_type = model.mime_type;
      size = model.size;
      checksum_sha256 = model.checksum_sha256;
      storage_provider = provider;
      storage_path = model.storage_path;
      page_count = model.page_count;
      metadata = model.meta;
      uploaded_by = model.uploaded_by;
      created_at = some model.created_at;
    }))

-- `_version_to_model`; the server's `now()` fills `created_at`.
unfoldable pub version_to_model : Time → KnowledgeDocumentVersion → VersionRow
version_to_model server_now entity = record {
  id = entity.id;
  document_id = entity.document_id;
  version_number = entity.version_number;
  original_filename = entity.original_filename;
  filename = entity.filename;
  extension = entity.extension;
  mime_type = entity.mime_type;
  size = entity.size;
  checksum_sha256 = entity.checksum_sha256;
  storage_provider = storage_provider_value entity.storage_provider;
  storage_path = entity.storage_path;
  page_count = entity.page_count;
  meta = entity.metadata;
  uploaded_by = entity.uploaded_by;
  created_at = server_now;
}

-- `_doc_to_entity`, with `str.lower` for the validators of the metadata.
unfoldable pub doc_to_entity :
    (Text → Text) → DocumentRow → Option KnowledgeDocumentVersion → Result KnowledgeDocument
doc_to_entity lower model active_version =
    and_then (source_type_from model.source_type) (λ source_type.
      and_then (document_status_from model.status) (λ status.
        and_then (model_validate lower model.meta) (λ metadata. ok (record {
          id = model.id;
          tenant_id = model.tenant_id;
          title = model.title;
          source_type = source_type;
          knowledge_space_id = model.knowledge_space_id;
          current_version_id = model.current_version_id;
          status = status;
          metadata = metadata;
          created_by = model.created_by;
          created_at = some model.created_at;
          updated_at = some model.updated_at;
          deleted_at = model.deleted_at;
          active_version = active_version;
        }))))

-- `_doc_to_model`
unfoldable pub doc_to_model : Time → KnowledgeDocument → DocumentRow
doc_to_model server_now entity = record {
  id = entity.id;
  tenant_id = entity.tenant_id;
  title = entity.title;
  source_type = source_type_value entity.source_type;
  knowledge_space_id = entity.knowledge_space_id;
  current_version_id = entity.current_version_id;
  status = document_status_value entity.status;
  meta = model_dump entity.metadata;
  created_by = entity.created_by;
  deleted_at = entity.deleted_at;
  created_at = server_now;
  updated_at = server_now;
}
