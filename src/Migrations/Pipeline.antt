-- ===== src/Migrations/Pipeline.antt =====
-- The statements of alembic/versions/d4e8f1a29b30_processing_job_pipeline.py.
pub mod Rows
use cortex_rag.Base.{List, [], ◌∷◌, text}
use cortex_rag.Migrations.Schema.{
  uuid, integer, long_text, json, timestamp, varchar, Op, create_index, drop_index, add_column,
  drop_column, execute, optional, defaulted, plain_index,
}

unfoldable pub upgrade : List Op
upgrade =
    add_column (text "processing_jobs") (optional (text "version_id") uuid)
    ∷ add_column (text "processing_jobs") (defaulted (text "priority") integer (text "0"))
    ∷ add_column (text "processing_jobs") (defaulted (text "retry_count") integer (text "0"))
    ∷ add_column (text "processing_jobs") (defaulted (text "progress") integer (text "0"))
    ∷ add_column (text "processing_jobs") (optional (text "worker_name") (varchar 255))
    ∷ add_column (text "processing_jobs") (optional (text "error_message") long_text)
    ∷ add_column (text "processing_jobs") (optional (text "started_at") timestamp)
    ∷ add_column (text "processing_jobs") (optional (text "finished_at") timestamp)
    ∷ execute (text "UPDATE processing_jobs")
    ∷ execute (text "UPDATE processing_jobs")
    ∷ drop_column (text "processing_jobs") (text "attempts")
    ∷ drop_column (text "processing_jobs") (text "error")
    ∷ drop_column (text "processing_jobs") (text "payload")
    ∷ create_index (
        plain_index (text "ix_processing_jobs_job_type") (text "processing_jobs")
          (text "job_type" ∷ []))
    ∷ create_index (
        plain_index (text "ix_jobs_document_type") (text "processing_jobs")
          (text "document_id" ∷ text "job_type" ∷ []))
    ∷ []

unfoldable pub downgrade : List Op
downgrade =
    drop_index (text "ix_jobs_document_type")
    ∷ drop_index (text "ix_processing_jobs_job_type")
    ∷ add_column (text "processing_jobs") (defaulted (text "attempts") integer (text "0"))
    ∷ add_column (text "processing_jobs") (optional (text "error") long_text)
    ∷ add_column (text "processing_jobs") (defaulted (text "payload") json (text "{}"))
    ∷ execute (text "UPDATE processing_jobs")
    ∷ execute (text "UPDATE processing_jobs")
    ∷ drop_column (text "processing_jobs") (text "finished_at")
    ∷ drop_column (text "processing_jobs") (text "started_at")
    ∷ drop_column (text "processing_jobs") (text "error_message")
    ∷ drop_column (text "processing_jobs") (text "worker_name")
    ∷ drop_column (text "processing_jobs") (text "progress")
    ∷ drop_column (text "processing_jobs") (text "retry_count")
    ∷ drop_column (text "processing_jobs") (text "priority")
    ∷ drop_column (text "processing_jobs") (text "version_id")
    ∷ []
