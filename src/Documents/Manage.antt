-- ===== src/Documents/Manage.antt =====
-- Get, list, delete and update (get_document.py, list_documents.py, delete_document.py,
-- update_document_metadata.py).
pub mod Absent
pub mod Deleted
use cortex_rag.Base.{Option, none, some, map}
use cortex_rag.Exec.{pure, or_raise, ◌>>=◌, ◌>>◌}
use cortex_rag.Status.{deleted}
use cortex_rag.Document.{KnowledgeDocument}
use cortex_rag.Events.{document_deleted, document_metadata_updated}
use cortex_rag.World.{Action, Env, publish, read_clock}
use cortex_rag.Documents.View.{
  DocumentView, document_view, UpdateDocumentMetadataInput, ListDocumentsInput, ListDocumentsOutput,
  GetDocumentInput,
}
use cortex_rag.Documents.Versions.{document_not_found}
use cortex_rag.Repo.Documents

module _ (env : Env) where
  unfoldable pub get_document : GetDocumentInput → Action DocumentView
  unfolding Documents.get document_view
  get_document input = do
    found ← Documents.get env input.tenant_id input.document_id
    document ← or_raise (document_not_found env input.document_id) found
    pure (document_view document)

  unfoldable pub list_documents : ListDocumentsInput → Action ListDocumentsOutput
  unfolding Documents.list_documents document_view
  list_documents input = do
    (items, total) ←
        Documents.list_documents env input.tenant_id input.knowledge_space_id input.limit
          input.offset
    pure (record {
      items = map document_view items;
      total = total;
      limit = input.limit;
      offset = input.offset;
    })

  unfoldable pub delete_document : GetDocumentInput → Action (Unit {0})
  unfolding read_clock publish Documents.get Documents.update
  delete_document input = do
    found ← Documents.get env input.tenant_id input.document_id
    document ← or_raise (document_not_found env input.document_id) found
    now ← read_clock env
    Documents.update env (record document { status = deleted; deleted_at = some now })
    publish (document_deleted document.id document.tenant_id)

  -- `if value is not None: document.field = value`
  abbrev pub or_keep {ℓ} : {A : Type ℓ} → Option A → A → A
  or_keep none old = old
  or_keep (some new) old = new

  abbrev pub or_keep_optional {ℓ} : {A : Type ℓ} → Option A → Option A → Option A
  or_keep_optional none old = old
  or_keep_optional (some new) old = some new

  abbrev pub edited : UpdateDocumentMetadataInput → KnowledgeDocument → KnowledgeDocument
  edited input document = record document {
    metadata = or_keep input.metadata document.metadata;
    title = or_keep input.title document.title;
    knowledge_space_id = or_keep_optional input.knowledge_space_id document.knowledge_space_id;
  }

  unfoldable pub update_document_metadata : UpdateDocumentMetadataInput → Action DocumentView
  unfolding publish Documents.get Documents.update document_view
  update_document_metadata input = do
    found ← Documents.get env input.tenant_id input.document_id
    document ← or_raise (document_not_found env input.document_id) found
    let changed = edited input document
    Documents.update env changed
    publish (document_metadata_updated changed.id changed.tenant_id changed.metadata)
    pure (document_view changed)
