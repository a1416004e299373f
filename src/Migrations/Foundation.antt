-- ===== src/Migrations/Foundation.antt =====
-- The statements of alembic/versions/098482a100da_knowledge_ingestion_foundation.py.
use cortex_rag.Base.{List, [], ◌∷◌, text}
use cortex_rag.Migrations.Schema.{
  uuid, integer, big_integer, long_text, json, timestamp, varchar, Op, create_table, drop_table,
  create_index, drop_index, required, optional, defaulted, plain_index, unique_index,
}

unfoldable pub upgrade : List Op
upgrade =
    create_table (record {
      name = text "knowledge_collections";
      columns =
          required (text "id") uuid
          ∷ required (text "tenant_id") (varchar 255)
          ∷ required (text "name") (varchar 255)
          ∷ optional (text "description") long_text
          ∷ required (text "metadata") json
          ∷ defaulted (text "created_at") timestamp (text "now()")
          ∷ defaulted (text "updated_at") timestamp (text "now()")
          ∷ [];
      foreign_keys = [];
    })
    ∷ create_index (
        plain_index (text "ix_knowledge_collections_tenant_id") (text "knowledge_collections")
          (text "tenant_id" ∷ []))
    ∷ create_table (record {
      name = text "knowledge_documents";
      columns =
          required (text "id") uuid
          ∷ required (text "tenant_id") (varchar 255)
          ∷ optional (text "collection_id") uuid
          ∷ required (text "original_filename") (varchar 1024)
          ∷ required (text "filename") (varchar 1024)
          ∷ required (text "extension") (varchar 32)
          ∷ required (text "mime_type") (varchar 255)
          ∷ required (text "size") big_integer
          ∷ required (text "checksum_sha256") (varchar 64)
          ∷ required (text "storage_provider") (varchar 32)
          ∷ required (text "storage_path") (varchar 2048)
          ∷ optional (text "uploaded_by") (varchar 255)
          ∷ required (text "status") (varchar 32)
          ∷ required (text "metadata") json
          ∷ optional (text "page_count") integer
          ∷ optional (text "deleted_at") timestamp
          ∷ defaulted (text "created_at") timestamp (text "now()")
          ∷ defaulted (text "updated_at") timestamp (text "now()")
          ∷ [];
      foreign_keys =
          record {
            column = text "collection_id";
            target = text "knowledge_collections";
            on_delete = text "SET NULL";
          }
          ∷ [];
    })
    ∷ create_index (
        plain_index (text "ix_documents_tenant_checksum") (text "knowledge_documents")
          (text "tenant_id" ∷ text "checksum_sha256" ∷ []))
    ∷ create_index (
        plain_index (text "ix_knowledge_documents_checksum_sha256") (text "knowledge_documents")
          (text "checksum_sha256" ∷ []))
    ∷ create_index (
        plain_index (text "ix_knowledge_documents_collection_id") (text "knowledge_documents")
          (text "collection_id" ∷ []))
    ∷ create_index (
        plain_index (text "ix_knowledge_documents_status") (text "knowledge_documents")
          (text "status" ∷ []))
    ∷ create_index (
        plain_index (text "ix_knowledge_documents_tenant_id") (text "knowledge_documents")
          (text "tenant_id" ∷ []))
    ∷ create_table (record {
      name = text "knowledge_pages";
      columns =
          required (text "id") uuid
          ∷ required (text "document_id") uuid
          ∷ required (text "page_number") integer
          ∷ optional (text "width") integer
          ∷ optional (text "height") integer
          ∷ required (text "rotation") integer
          ∷ optional (text "image_path") (varchar 2048)
          ∷ optional (text "extracted_text") long_text
          ∷ required (text "metadata") json
          ∷ defaulted (text "created_at") timestamp (text "now()")
          ∷ [];
      foreign_keys =
          record {
            column = text "document_id";
            target = text "knowledge_documents";
            on_delete = text "CASCADE";
          }
          ∷ [];
    })
    ∷ create_index (
        plain_index (text "ix_knowledge_pages_document_id") (text "knowledge_pages")
          (text "document_id" ∷ []))
    ∷ create_index (
        unique_index (text "ix_pages_document_number") (text "knowledge_pages")
          (text "document_id" ∷ text "page_number" ∷ []))
    ∷ create_table (record {
      name = text "processing_jobs";
      columns =
          required (text "id") uuid
          ∷ required (text "document_id") uuid
          ∷ required (text "tenant_id") (varchar 255)
          ∷ required (text "job_type") (varchar 64)
          ∷ required (text "status") (varchar 32)
          ∷ required (text "attempts") integer
          ∷ optional (text "error") long_text
          ∷ required (text "payload") json
          ∷ defaulted (text "created_at") timestamp (text "now()")
          ∷ defaulted (text "updated_at") timestamp (text "now()")
          ∷ [];
      foreign_keys =
          record {
            column = text "document_id";
            target = text "knowledge_documents";
            on_delete = text "CASCADE";
          }
          ∷ [];
    })
    ∷ create_index (
        plain_index (text "ix_processing_jobs_document_id") (text "processing_jobs")
          (text "document_id" ∷ []))
    ∷ create_index (
        plain_index (text "ix_processing_jobs_status") (text "processing_jobs")
          (text "status" ∷ []))
    ∷ create_index (
        plain_index (text "ix_processing_jobs_tenant_id") (text "processing_jobs")
          (text "tenant_id" ∷ []))
    ∷ []

unfoldable pub downgrade : List Op
downgrade =
    drop_index (text "ix_processing_jobs_tenant_id")
    ∷ drop_index (text "ix_processing_jobs_status")
    ∷ drop_index (text "ix_processing_jobs_document_id")
    ∷ drop_table (text "processing_jobs")
    ∷ drop_index (text "ix_pages_document_number")
    ∷ drop_index (text "ix_knowledge_pages_document_id")
    ∷ drop_table (text "knowledge_pages")
    ∷ drop_index (text "ix_knowledge_documents_tenant_id")
    ∷ drop_index (text "ix_knowledge_documents_status")
    ∷ drop_index (text "ix_knowledge_documents_collection_id")
    ∷ drop_index (text "ix_knowledge_documents_checksum_sha256")
    ∷ drop_index (text "ix_documents_tenant_checksum")
    ∷ drop_table (text "knowledge_documents")
    ∷ drop_index (text "ix_knowledge_collections_tenant_id")
    ∷ drop_table (text "knowledge_collections")
    ∷ []
