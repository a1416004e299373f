-- ===== src/Documents/Versions/Effect.antt =====
-- What adding a version to a document leaves.
use cortex_rag.Repo.Documents
use cortex_rag.Base.{◌≡◌, some, List, [], ◌∷◌, ◌++◌, arith, Text}
use cortex_rag.Base.Str.{after_last_dot}
use cortex_rag.Exec.{Result, ok}
use cortex_rag.Document.{KnowledgeDocumentVersion, KnowledgeDocument, version_to_model}
use cortex_rag.World.{World, Env}
use cortex_rag.Settings.{UploadSettings}
use cortex_rag.Repo.Documents.{by_id, point_at}
use cortex_rag.Repo.Documents.Laws.{get_keeps, list_versions_keeps}
use cortex_rag.Repo.Sql.{update_first}
use cortex_rag.StoragePolicy.{build_document_version_key}
use cortex_rag.Validation.{validate_upload}
use cortex_rag.Documents.View.{DocumentVersionView, version_view, AddDocumentVersionInput}
use cortex_rag.Documents.Versions.{next_number, next_version, add_document_version}

module _ (env : Env) (settings : UploadSettings) (input : AddDocumentVersionInput) (w : World)
    (document : KnowledgeDocument) (existing : List KnowledgeDocumentVersion)
    (read : (Documents.get env input.tenant_id input.document_id w).0 ≡ ok (some document))
    (listed : (Documents.list_versions document.id w).0 ≡ ok existing) where
  abbrev pub added_extension : Text
  added_extension = env.lower (after_last_dot input.original_filename)

  abbrev pub added_key : Text
  added_key =
      build_document_version_key env input.tenant_id document.id (env.uuid4 w.draws) added_extension
        (env.now w.readings)

  abbrev pub added_version : KnowledgeDocumentVersion
  added_version =
      next_version env input document.id added_extension added_key (env.uuid4 w.draws)
        (next_number existing) (env.now w.readings)

  abbrev add_it : Result DocumentVersionView × World
  add_it = add_document_version env settings input w

  -- Where a version was added: its row, with the number after the highest of those the document had,
  -- stands at the end of the versions, and no row was changed; its content was stored; and of the
  -- documents the row with that id, and no other, points at it. No job is made.
  pub add_effect :
      {view : DocumentVersionView}
      → add_it.0 ≡ ok view
      → (view ≡ version_view added_version)
        × (add_it.1.versions ≡ w.versions ++ (version_to_model w.server_now added_version ∷ []))
        × (add_it.1.saved ≡ w.saved ++ ((added_key, input.content) ∷ []))
        × (add_it.1.documents
            ≡ update_first
                (by_id document.id)
                (point_at env (record document { current_version_id = some (env.uuid4 w.draws) }))
                w.documents)
        × (add_it.1.jobs ≡ w.jobs)
  unfolding add_document_version validate_upload
  add_effect {view} h =
      ground (
        arith,
        get_keeps env input.tenant_id input.document_id w,
        list_versions_keeps document.id w,
      )
