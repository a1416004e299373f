-- ===== src/Documents/Versions/Rows.antt =====
-- The row that adding a version makes, field by field.
use cortex_rag.Base.{◌≡◌, refl, ap, some, List, [], ◌∷◌, ◌++◌, length}
use cortex_rag.Repo.Documents
use cortex_rag.Base.Str.{after_last_dot}
use cortex_rag.Exec.{Result, ok}
use cortex_rag.Status.{document_status_value}
use cortex_rag.Document.{
  KnowledgeDocumentVersion, KnowledgeDocument, DocumentRow, VersionRow, version_to_model,
}
use cortex_rag.World.{World, Env}
use cortex_rag.Settings.{UploadSettings}
use cortex_rag.Repo.Documents.{by_id}
use cortex_rag.Repo.Sql.{update_first}
use cortex_rag.Documents.View.{DocumentVersionView, version_view, AddDocumentVersionInput}
use cortex_rag.Documents.Versions.{add_document_version}
use cortex_rag.Documents.Versions.Numbers.{IsNext, next_number-IsNext}
use cortex_rag.Documents.Versions.Effect.{added_version, add_effect}

module _ (env : Env) (settings : UploadSettings) (input : AddDocumentVersionInput) (w : World)
    (document : KnowledgeDocument) (existing : List KnowledgeDocumentVersion)
    (read : (Documents.get env input.tenant_id input.document_id w).0 ≡ ok (some document))
    (listed : (Documents.list_versions document.id w).0 ≡ ok existing) where
  abbrev add_it : Result DocumentVersionView × World
  add_it = add_document_version env settings input w

  -- What the row of a version has of the upload.
  abbrev pub HasUpload : VersionRow → Type 0
  HasUpload v =
      (v.document_id ≡ document.id)
      × (v.original_filename ≡ input.original_filename)
      × (v.extension ≡ env.lower (after_last_dot input.original_filename))
      × (v.mime_type ≡ input.content_type)
      × (v.size ≡ length input.content)
      × (v.checksum_sha256 ≡ env.sha256_hex input.content)
      × (v.uploaded_by ≡ input.uploaded_by)

  -- The document's row, with the version as its current one.
  abbrev pub points_at : VersionRow → DocumentRow → DocumentRow
  points_at v d =
      let new = record d {
        current_version_id = some v.id;
        status = document_status_value document.status;
      } in
      record new { updated_at = env.document_updated_at d new }

  -- Where a version is added to a document, whose versions the repository lists, one row has been added
  -- at the end of the versions, with the upload's name, type, size and checksum. Its number is above
  -- each number that the document had, and 1 where there was no version or one more than that of a
  -- version. The content was stored under the row's path; of the documents the row with the document's
  -- id, and no other, has that version as its current one; no job is made; and the view has the
  -- version's id and number.
  pub added_row :
      {view : DocumentVersionView}
      → add_it.0 ≡ ok view
      → (v : VersionRow) × (add_it.1.versions ≡ w.versions ++ (v ∷ []))
        × HasUpload v
        × IsNext v.version_number existing
        × (add_it.1.saved ≡ w.saved ++ ((v.storage_path, input.content) ∷ []))
        × (add_it.1.documents ≡ update_first (by_id document.id) (points_at v) w.documents)
        × (add_it.1.jobs ≡ w.jobs)
        × (view.id ≡ v.id)
        × (view.version_number ≡ v.version_number)
  unfolding version_to_model version_view
  added_row {view} h =
      let (seen, vers, files, docs, jobs) =
        add_effect env settings input w document existing read listed h in
      (
        version_to_model w.server_now
            (added_version env settings input w document existing read listed),
        vers,
        (refl, refl, refl, refl, refl, refl, refl),
        next_number-IsNext existing,
        files,
        docs,
        jobs,
        ap (λ v. v.id) seen,
        ap (λ v. v.version_number) seen,
      )
