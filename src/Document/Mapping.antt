-- ===== src/Document/Mapping.antt =====
-- What is stored reads back as it was, but for the instants that the server sets.
use cortex_rag.Base.{◌≡◌, Option, some, Text}
use cortex_rag.Exec.{ok}
use cortex_rag.Status.{document_status_from-value, storage_provider_from-value}
use cortex_rag.Job.{Time}
use cortex_rag.SourceType.{source_type_from-value}
use cortex_rag.Metadata.{validate_metadata}
use cortex_rag.Document.{
  KnowledgeDocumentVersion, KnowledgeDocument, version_to_entity, version_to_model, doc_to_entity,
  doc_to_model,
}
use cortex_rag.Metadata.Column.{model_validate-model_dump}

-- A version reads back from its row as it was stored, with the server's creation time.
pub version_to_entity-version_to_model :
    (now : Time) (v : KnowledgeDocumentVersion)
    → version_to_entity (version_to_model now v) ≡ ok (record v { created_at = some now })
unfolding version_to_entity version_to_model
version_to_entity-version_to_model now v = rw (storage_provider_from-value v.storage_provider)

-- A document reads back from its row as it was stored, with the server's times, where its metadata
-- is valid.
pub doc_to_entity-doc_to_model :
    (lower : Text → Text) (now : Time) (d : KnowledgeDocument) (v : Option KnowledgeDocumentVersion)
    → validate_metadata lower d.metadata ≡ ok d.metadata
    → doc_to_entity lower (doc_to_model now d) v
      ≡ ok (record d { created_at = some now; updated_at = some now; active_version = v })
unfolding doc_to_entity doc_to_model
doc_to_entity-doc_to_model lower now d v valid = rw (
  source_type_from-value d.source_type,
  document_status_from-value d.status,
  model_validate-model_dump lower d.metadata,
  valid,
)
