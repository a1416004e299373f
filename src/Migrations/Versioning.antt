-- ===== src/Migrations/Versioning.antt =====
-- The statements of alembic/versions/b7f2c9a4d1e8_document_versioning.py.
pub mod Rows
use cortex_rag.Base.{List, [], ◌∷◌, text}
use cortex_rag.Migrations.Schema.{
  uuid, integer, big_integer, json, timestamp, varchar, Op, create_table, drop_table, create_index,
  drop_index, add_column, drop_column, set_not_null, execute, required, optional, defaulted,
  plain_index, unique_index,
}

unfoldable pub upgrade : List Op
upgrade =
    create_table (record {
      name = text "knowledge_document_versions";
      columns =
          required (text "id") uuid
          ∷ required (text "document_id") uuid
          ∷ required (text "version_number") integer
          ∷ required (text "original_filename") (varchar 1024)
          ∷ required (text "filename") (varchar 1024)
          ∷ required (text "extension") (varchar 32)
          ∷ required (text "mime_type") (varchar 255)
          ∷ required (text "size") big_integer
          ∷ required (text "checksum_sha256") (varchar 64)
          ∷ required (text "storage_provider") (varchar 32)
          ∷ required (text "storage_path") (varchar 2048)
          ∷ optional (text "page_count") integer
          ∷ required (text "metadata") json
          ∷ optional (text "uploaded_by") (varchar 255)
          ∷ defaulted (text "created_at") timestamp (text "now()")
          ∷ [];
      foreign_keys =
          record {
            column = text "document_id";
            target = text "knowledge_documents";
            on_delete = text "CASCADE";
          }
          ∷ [];
    })
    ∷ create_index (
        plain_index (text "ix_knowledge_document_versions_document_id")
          (text "knowledge_document_versions") (text "document_id" ∷ []))
    ∷ create_index (
        plain_index (text "ix_knowledge_document_versions_checksum_sha256")
          (text "knowledge_document_versions") (text "checksum_sha256" ∷ []))
    ∷ create_index (
        unique_index (text "ix_versions_document_number") (text "knowledge_document_versions")
          (text "document_id" ∷ text "version_number" ∷ []))
    ∷ add_column (text "knowledge_documents") (optional (text "knowledge_space_id") uuid)
    ∷ add_column (text "knowledge_documents") (optional (text "title") (varchar 1024))
    ∷ add_column (text "knowledge_documents") (optional (text "source_type") (varchar 64))
    ∷ add_column (text "knowledge_documents") (optional (text "current_version_id") uuid)
    ∷ add_column (text "knowledge_documents") (optional (text "created_by") (varchar 255))
    ∷ execute (text "INSERT INTO knowledge_document_versions")
    ∷ execute (text "UPDATE knowledge_documents")
    ∷ set_not_null (text "knowledge_documents") (text "title")
    ∷ set_not_null (text "knowledge_documents") (text "source_type")
    ∷ create_index (
        plain_index (text "ix_knowledge_documents_source_type") (text "knowledge_documents")
          (text "source_type" ∷ []))
    ∷ create_index (
        plain_index (text "ix_knowledge_documents_knowledge_space_id") (text "knowledge_documents")
          (text "knowledge_space_id" ∷ []))
    ∷ drop_index (text "ix_documents_tenant_checksum")
    ∷ drop_index (text "ix_knowledge_documents_checksum_sha256")
    ∷ drop_index (text "ix_knowledge_documents_collection_id")
    ∷ drop_column (text "knowledge_documents") (text "original_filename")
    ∷ drop_column (text "knowledge_documents") (text "filename")
    ∷ drop_column (text "knowledge_documents") (text "extension")
    ∷ drop_column (text "knowledge_documents") (text "mime_type")
    ∷ drop_column (text "knowledge_documents") (text "size")
    ∷ drop_column (text "knowledge_documents") (text "checksum_sha256")
    ∷ drop_column (text "knowledge_documents") (text "storage_provider")
    ∷ drop_column (text "knowledge_documents") (text "storage_path")
    ∷ drop_column (text "knowledge_documents") (text "uploaded_by")
    ∷ drop_column (text "knowledge_documents") (text "page_count")
    ∷ drop_column (text "knowledge_documents") (text "collection_id")
    ∷ []

unfoldable pub downgrade : List Op
downgrade =
    add_column (text "knowledge_documents") (optional (text "collection_id") uuid)
    ∷ add_column (text "knowledge_documents") (optional (text "page_count") integer)
    ∷ add_column (text "knowledge_documents") (optional (text "uploaded_by") (varchar 255))
    ∷ add_column (text "knowledge_documents") (optional (text "storage_path") (varchar 2048))
    ∷ add_column (text "knowledge_documents") (optional (text "storage_provider") (varchar 32))
    ∷ add_column (text "knowledge_documents") (optional (text "checksum_sha256") (varchar 64))
    ∷ add_column (text "knowledge_documents") (optional (text "size") big_integer)
    ∷ add_column (text "knowledge_documents") (optional (text "mime_type") (varchar 255))
    ∷ add_column (text "knowledge_documents") (optional (text "extension") (varchar 32))
    ∷ add_column (text "knowledge_documents") (optional (text "filename") (varchar 1024))
    ∷ add_column (text "knowledge_documents") (optional (text "original_filename") (varchar 1024))
    ∷ execute (text "UPDATE knowledge_documents")
    ∷ create_index (
        plain_index (text "ix_knowledge_documents_collection_id") (text "knowledge_documents")
          (text "collection_id" ∷ []))
    ∷ create_index (
        plain_index (text "ix_knowledge_documents_checksum_sha256") (text "knowledge_documents")
          (text "checksum_sha256" ∷ []))
    ∷ create_index (
        plain_index (text "ix_documents_tenant_checksum") (text "knowledge_documents")
          (text "tenant_id" ∷ text "checksum_sha256" ∷ []))
    ∷ drop_index (text "ix_knowledge_documents_knowledge_space_id")
    ∷ drop_index (text "ix_knowledge_documents_source_type")
    ∷ drop_column (text "knowledge_documents") (text "created_by")
    ∷ drop_column (text "knowledge_documents") (text "current_version_id")
    ∷ drop_column (text "knowledge_documents") (text "source_type")
    ∷ drop_column (text "knowledge_documents") (text "title")
    ∷ drop_column (text "knowledge_documents") (text "knowledge_space_id")
    ∷ drop_index (text "ix_versions_document_number")
    ∷ drop_index (text "ix_knowledge_document_versions_checksum_sha256")
    ∷ drop_index (text "ix_knowledge_document_versions_document_id")
    ∷ drop_table (text "knowledge_document_versions")
    ∷ []
