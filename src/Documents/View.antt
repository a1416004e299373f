-- ===== src/Documents/View.antt =====
-- The read models of app/application/documents/dtos.py.
use cortex_rag.Base.{ℕ, Option, none, some, List, Text}
use cortex_rag.Status.{DocumentStatus, StorageProviderKind}
use cortex_rag.Job.{Uuid, Time}
use cortex_rag.SourceType.{SourceType}
use cortex_rag.Metadata.{KnowledgeMetadata}
use cortex_rag.Document.{KnowledgeDocumentVersion, KnowledgeDocument}
use cortex_rag.Metadata.Column.{JsonDict}

pub record DocumentVersionView : Type 0 where
  pub id : Uuid
  pub document_id : Uuid
  pub version_number : ℕ
  pub original_filename : Text
  pub filename : Text
  pub extension : Text
  pub mime_type : Text
  pub size : ℕ
  pub checksum_sha256 : Text
  pub storage_provider : StorageProviderKind
  pub storage_path : Text
  pub page_count : Option ℕ
  pub metadata : JsonDict
  pub uploaded_by : Option Text
  pub created_at : Option Time

-- `DocumentVersionView.from_entity`
unfoldable pub version_view : KnowledgeDocumentVersion → DocumentVersionView
version_view v = record {
  id = v.id;
  document_id = v.document_id;
  version_number = v.version_number;
  original_filename = v.original_filename;
  filename = v.filename;
  extension = v.extension;
  mime_type = v.mime_type;
  size = v.size;
  checksum_sha256 = v.checksum_sha256;
  storage_provider = v.storage_provider;
  storage_path = v.storage_path;
  page_count = v.page_count;
  metadata = v.metadata;
  uploaded_by = v.uploaded_by;
  created_at = v.created_at;
}

-- A document with the attributes of its active version.
pub record DocumentView : Type 0 where
  pub id : Uuid
  pub tenant_id : Text
  pub knowledge_space_id : Option Uuid
  pub title : Text
  pub source_type : SourceType
  pub status : DocumentStatus
  pub metadata : KnowledgeMetadata
  pub created_by : Option Text
  pub created_at : Option Time
  pub updated_at : Option Time
  pub current_version_id : Option Uuid
  pub version_number : Option ℕ
  pub original_filename : Option Text
  pub filename : Option Text
  pub extension : Option Text
  pub mime_type : Option Text
  pub size : Option ℕ
  pub checksum_sha256 : Option Text
  pub storage_provider : Option StorageProviderKind
  pub storage_path : Option Text
  pub page_count : Option ℕ
  pub uploaded_by : Option Text

-- `v.field if v else None`
abbrev of_version {ℓ} :
    {A : Type ℓ} → (KnowledgeDocumentVersion → A) → Option KnowledgeDocumentVersion → Option A
of_version f none = none
of_version f (some v) = some (f v)

abbrev of_version_optional {ℓ} :
    {A : Type ℓ}
    → (KnowledgeDocumentVersion → Option A)
    → Option KnowledgeDocumentVersion
    → Option A
of_version_optional f none = none
of_version_optional f (some v) = f v

-- `DocumentView.from_document`
unfoldable pub document_view : KnowledgeDocument → DocumentView
document_view document =
    let v = document.active_version in
    record {
      id = document.id;
      tenant_id = document.tenant_id;
      knowledge_space_id = document.knowledge_space_id;
      title = document.title;
      source_type = document.source_type;
      status = document.status;
      metadata = document.metadata;
      created_by = document.created_by;
      created_at = document.created_at;
      updated_at = document.updated_at;
      current_version_id = document.current_version_id;
      version_number = of_version (λ v. v.version_number) v;
      original_filename = of_version (λ v. v.original_filename) v;
      filename = of_version (λ v. v.filename) v;
      extension = of_version (λ v. v.extension) v;
      mime_type = of_version (λ v. v.mime_type) v;
      size = of_version (λ v. v.size) v;
      checksum_sha256 = of_version (λ v. v.checksum_sha256) v;
      storage_provider = of_version (λ v. v.storage_provider) v;
      storage_path = of_version (λ v. v.storage_path) v;
      page_count = of_version_optional (λ v. v.page_count) v;
      uploaded_by = of_version_optional (λ v. v.uploaded_by) v;
    }

pub record UploadDocumentInput : Type 0 where
  pub tenant_id : Text
  pub original_filename : Text
  pub content : List ℕ
  pub content_type : Text
  pub uploaded_by : Option Text
  pub knowledge_space_id : Option Uuid

pub record AddDocumentVersionInput : Type 0 where
  pub tenant_id : Text
  pub document_id : Uuid
  pub original_filename : Text
  pub content : List ℕ
  pub content_type : Text
  pub uploaded_by : Option Text

pub record UpdateDocumentMetadataInput : Type 0 where
  pub tenant_id : Text
  pub document_id : Uuid
  pub metadata : Option KnowledgeMetadata
  pub title : Option Text
  pub knowledge_space_id : Option Uuid

pub record ListDocumentsInput : Type 0 where
  pub tenant_id : Text
  pub knowledge_space_id : Option Uuid
  pub limit : ℕ
  pub offset : ℕ

pub record ListDocumentsOutput : Type 0 where
  pub items : List DocumentView
  pub total : ℕ
  pub limit : ℕ
  pub offset : ℕ

pub record GetDocumentInput : Type 0 where
  pub tenant_id : Text
  pub document_id : Uuid

pub record ListDocumentVersionsOutput : Type 0 where
  pub document_id : Uuid
  pub versions : List DocumentVersionView
