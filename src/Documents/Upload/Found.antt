-- ===== src/Documents/Upload/Found.antt =====
-- What was uploaded is found again.
use cortex_rag.Base.{
  ◌≡◌, refl, ap, ◌∙◌, Bool, some, arith, ◌==◌, nat_eq, select_first, Text, text_eq,
}
use cortex_rag.Exec.{ok}
use cortex_rag.Metadata.{
  empty_metadata, strip_all, has_duplicates, any_blank, validate_language, validate_tags,
  validate_keywords, validate_metadata,
}
use cortex_rag.Document.{
  KnowledgeDocumentVersion, KnowledgeDocument, VersionRow, version_to_model, doc_to_model,
}
use cortex_rag.World.{World, Env}
use cortex_rag.Settings.{UploadSettings, ProcessingSettings}
use cortex_rag.Repo.Sql.Laws.{select_first-append_self, exists-weaken}
use cortex_rag.Repo.Documents.{by_id, is_live, clashes}
use cortex_rag.Repo.Documents.Laws.{with_version-doc_to_model}
use cortex_rag.Documents.View.{DocumentView, document_view, UploadDocumentInput}
use cortex_rag.Documents.Upload.Effect.{
  uploaded_version, uploaded_document, upload, upload_effect, upload_fresh,
}
use cortex_rag.Repo.Documents

empty_metadata_is_valid :
    (lower : Text → Text) → validate_metadata lower empty_metadata ≡ ok empty_metadata
unfolding validate_metadata validate_language validate_tags validate_keywords strip_all any_blank
    has_duplicates
empty_metadata_is_valid lower = refl

module _ (env : Env) (settings : UploadSettings) (processing_settings : ProcessingSettings)
    (input : UploadDocumentInput) (w : World) {view : DocumentView}
    (uploaded_once : (upload env settings processing_settings input w).0 ≡ ok view) where
  abbrev after : World
  after = (upload env settings processing_settings input w).1

  abbrev the_version : KnowledgeDocumentVersion
  the_version = uploaded_version env settings processing_settings input w

  abbrev the_document : KnowledgeDocument
  the_document = uploaded_document env settings processing_settings input w

  document_row_found :
      select_first (is_live input.tenant_id the_document.id) after.documents
      ≡ some (doc_to_model w.server_now the_document)
  unfolding doc_to_model
  document_row_found =
      let (seen, docs, vers, files) =
        upload_effect env settings processing_settings input w uploaded_once in
      let live = is_live input.tenant_id the_document.id in
      ap (select_first live) docs
      ∙ select_first-append_self live w.documents (doc_to_model w.server_now the_document)
          (exists-weaken (by_id the_document.id) live w.documents (λ d t. ground arith)
            (upload_fresh env settings processing_settings input w uploaded_once).1)
          (ground arith)

  abbrev is_the_version : VersionRow → Bool
  is_the_version v = v.id == the_version.id

  version_row_found :
      select_first is_the_version after.versions ≡ some (version_to_model w.server_now the_version)
  unfolding version_to_model
  version_row_found =
      let (seen, docs, vers, files) =
        upload_effect env settings processing_settings input w uploaded_once in
      ap (select_first is_the_version) vers
      ∙ select_first-append_self is_the_version w.versions
          (version_to_model w.server_now the_version)
          (exists-weaken (clashes (version_to_model w.server_now the_version)) is_the_version
            w.versions (λ d t. ground arith)
            (upload_fresh env settings processing_settings input w uploaded_once).0)
          (ground arith)

  -- A document that was uploaded is found under its tenant and its id, with the version that the
  -- upload made; all fields are those that the upload returned, but for the three times, which are
  -- the server's.
  pub uploaded_is_found :
      (view ≡ document_view the_document)
      × (Documents.get env input.tenant_id view.id after ≡ (
        ok (
            some (record the_document {
              created_at = some w.server_now;
              updated_at = some w.server_now;
              active_version = some (record the_version { created_at = some w.server_now });
            })),
        after,
      ))
  unfolding Documents.get document_view
  uploaded_is_found =
      let (seen, docs, vers, files) =
        upload_effect env settings processing_settings input w uploaded_once in
      (
        seen,
        rw seen (
            rw document_row_found (
              with_version-doc_to_model env w.server_now the_document the_version after refl
                version_row_found (empty_metadata_is_valid env.lower))),
      )
