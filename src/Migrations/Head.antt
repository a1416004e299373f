-- ===== src/Migrations/Head.antt =====
-- The schema that the models declare (`Base.metadata`), and the one that the migrations lead to.
pub mod Agreement
pub mod Downgrade
use cortex_rag.Migrations.Foundation
use cortex_rag.Migrations.Versioning
use cortex_rag.Migrations.Typed
use cortex_rag.Migrations.Pipeline
use cortex_rag.Migrations.Talks
use cortex_rag.Base.{List, [], ◌∷◌, ◌++◌, text}
use cortex_rag.Migrations.Schema.{
  uuid, integer, big_integer, long_text, json, timestamp, varchar, Column, Table, Index, Schema, Op,
  required, optional, defaulted, plain_index, unique_index,
}

-- `TimestampMixin`
abbrev timestamp_columns : List Column
timestamp_columns =
    defaulted (text "created_at") timestamp (text "now()")
    ∷ defaulted (text "updated_at") timestamp (text "now()")
    ∷ []

-- `KnowledgeCollectionModel`
abbrev collections_table : Table
collections_table = record {
  name = text "knowledge_collections";
  columns =
      required (text "id") uuid
      ∷ required (text "tenant_id") (varchar 255)
      ∷ required (text "name") (varchar 255)
      ∷ optional (text "description") long_text
      ∷ required (text "metadata") json
      ∷ timestamp_columns;
  foreign_keys = [];
}

-- `KnowledgeDocumentModel`
abbrev documents_table : Table
documents_table = record {
  name = text "knowledge_documents";
  columns =
      required (text "id") uuid
      ∷ required (text "tenant_id") (varchar 255)
      ∷ optional (text "knowledge_space_id") uuid
      ∷ required (text "title") (varchar 1024)
      ∷ required (text "source_type") (varchar 64)
      ∷ optional (text "current_version_id") uuid
      ∷ required (text "status") (varchar 32)
      ∷ required (text "metadata") json
      ∷ optional (text "created_by") (varchar 255)
      ∷ optional (text "deleted_at") timestamp
      ∷ timestamp_columns;
  foreign_keys = [];
}

-- `KnowledgeDocumentVersionModel`
abbrev versions_table : Table
versions_table = record {
  name = text "knowledge_document_versions";
  columns =
      required (text "id") uuid
      ∷ required (text "document_id") uuid
      ∷ required (text "version_number") integer
      ∷ required (text "original_filename") (varchar 1024)
      ∷ required (text "filename") (varchar 1024)
      ∷ required (text "extension") (varchar 32)
      ∷ required (text "mime_type") (varchar 255)
      ∷ required (text "size") big_integer
      ∷ required (text "checksum_sha256") (varchar 64)
      ∷ required (text "storage_provider") (varchar 32)
      ∷ required (text "storage_path") (varchar 2048)
      ∷ optional (text "page_count") integer
      ∷ required (text "metadata") json
      ∷ optional (text "uploaded_by") (varchar 255)
      ∷ defaulted (text "created_at") timestamp (text "now()")
      ∷ [];
  foreign_keys =
      record {
        column = text "document_id";
        target = text "knowledge_documents";
        on_delete = text "CASCADE";
      }
      ∷ [];
}

-- `KnowledgePageModel`
abbrev pages_table : Table
pages_table = record {
  name = text "knowledge_pages";
  columns =
      required (text "id") uuid
      ∷ required (text "document_id") uuid
      ∷ required (text "page_number") integer
      ∷ optional (text "width") integer
      ∷ optional (text "height") integer
      ∷ required (text "rotation") integer
      ∷ optional (text "image_path") (varchar 2048)
      ∷ optional (text "extracted_text") long_text
      ∷ required (text "metadata") json
      ∷ defaulted (text "created_at") timestamp (text "now()")
      ∷ [];
  foreign_keys =
      record {
        column = text "document_id";
        target = text "knowledge_documents";
        on_delete = text "CASCADE";
      }
      ∷ [];
}

-- `ProcessingJobModel`
abbrev jobs_table : Table
jobs_table = record {
  name = text "processing_jobs";
  columns =
      required (text "id") uuid
      ∷ required (text "document_id") uuid
      ∷ optional (text "version_id") uuid
      ∷ required (text "tenant_id") (varchar 255)
      ∷ required (text "job_type") (varchar 64)
      ∷ required (text "status") (varchar 32)
      ∷ required (text "priority") integer
      ∷ required (text "retry_count") integer
      ∷ required (text "progress") integer
      ∷ optional (text "worker_name") (varchar 255)
      ∷ optional (text "error_message") long_text
      ∷ optional (text "started_at") timestamp
      ∷ optional (text "finished_at") timestamp
      ∷ timestamp_columns;
  foreign_keys =
      record {
        column = text "document_id";
        target = text "knowledge_documents";
        on_delete = text "CASCADE";
      }
      ∷ [];
}

-- `ConversationModel`
abbrev conversations_table : Table
conversations_table = record {
  name = text "conversations";
  columns =
      required (text "id") uuid ∷ required (text "tenant_id") (varchar 255) ∷ timestamp_columns;
  foreign_keys = [];
}

-- `ConversationMessageModel`
abbrev messages_table : Table
messages_table = record {
  name = text "conversation_messages";
  columns =
      required (text "id") uuid
      ∷ required (text "conversation_id") uuid
      ∷ required (text "seq") integer
      ∷ required (text "role") (varchar 32)
      ∷ required (text "content") long_text
      ∷ defaulted (text "created_at") timestamp (text "now()")
      ∷ [];
  foreign_keys =
      record {
        column = text "conversation_id";
        target = text "conversations";
        on_delete = text "CASCADE";
      }
      ∷ [];
}

-- The indexes of all models: `index=True` and `__table_args__`.
abbrev declared_indexes : List Index
declared_indexes =
    plain_index (text "ix_knowledge_collections_tenant_id") (text "knowledge_collections")
      (text "tenant_id" ∷ [])
    ∷ plain_index (text "ix_knowledge_documents_tenant_id") (text "knowledge_documents")
        (text "tenant_id" ∷ [])
    ∷ plain_index (text "ix_knowledge_documents_knowledge_space_id") (text "knowledge_documents")
        (text "knowledge_space_id" ∷ [])
    ∷ plain_index (text "ix_knowledge_documents_source_type") (text "knowledge_documents")
        (text "source_type" ∷ [])
    ∷ plain_index (text "ix_knowledge_documents_status") (text "knowledge_documents")
        (text "status" ∷ [])
    ∷ plain_index (text "ix_knowledge_document_versions_document_id")
        (text "knowledge_document_versions") (text "document_id" ∷ [])
    ∷ plain_index (text "ix_knowledge_document_versions_checksum_sha256")
        (text "knowledge_document_versions") (text "checksum_sha256" ∷ [])
    ∷ unique_index (text "ix_versions_document_number") (text "knowledge_document_versions")
        (text "document_id" ∷ text "version_number" ∷ [])
    ∷ plain_index (text "ix_knowledge_pages_document_id") (text "knowledge_pages")
        (text "document_id" ∷ [])
    ∷ unique_index (text "ix_pages_document_number") (text "knowledge_pages")
        (text "document_id" ∷ text "page_number" ∷ [])
    ∷ plain_index (text "ix_processing_jobs_document_id") (text "processing_jobs")
        (text "document_id" ∷ [])
    ∷ plain_index (text "ix_processing_jobs_tenant_id") (text "processing_jobs")
        (text "tenant_id" ∷ [])
    ∷ plain_index (text "ix_processing_jobs_job_type") (text "processing_jobs")
        (text "job_type" ∷ [])
    ∷ plain_index (text "ix_processing_jobs_status") (text "processing_jobs") (text "status" ∷ [])
    ∷ plain_index (text "ix_jobs_document_type") (text "processing_jobs")
        (text "document_id" ∷ text "job_type" ∷ [])
    ∷ plain_index (text "ix_conversations_tenant_id") (text "conversations") (text "tenant_id" ∷ [])
    ∷ plain_index (text "ix_conversation_messages_conversation_id") (text "conversation_messages")
        (text "conversation_id" ∷ [])
    ∷ unique_index (text "ix_messages_conversation_seq") (text "conversation_messages")
        (text "conversation_id" ∷ text "seq" ∷ [])
    ∷ []

unfoldable pub declared : Schema
declared = record {
  tables =
      collections_table ∷ documents_table ∷ versions_table ∷ pages_table ∷ jobs_table
      ∷ conversations_table ∷ messages_table ∷ [];
  indexes = declared_indexes;
}

abbrev pub empty_schema : Schema
empty_schema = record { tables = []; indexes = [] }

-- `alembic upgrade head`: the revisions in the order of their `down_revision`.
unfoldable pub upgrade_head : List Op
unfolding Foundation.upgrade Versioning.upgrade Typed.upgrade Pipeline.upgrade Talks.upgrade
upgrade_head =
    Foundation.upgrade
    ++ (Versioning.upgrade ++ (Typed.upgrade ++ (Pipeline.upgrade ++ Talks.upgrade)))
