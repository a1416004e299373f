-- ===== src/Documents/Upload/Duplicates.antt =====
-- Content that a tenant has uploaded already.
use cortex_rag.Base.{
  ◌≡◌, ap, ◌∙◌, Bool, true, false, ◌&&◌, [], ◌∷◌, arith, ◌==◌, nat_eq, select_first, is_none,
  text_eq,
}
use cortex_rag.Exec.{ok, is_ok}
use cortex_rag.Document.{DocumentRow, VersionRow, version_to_model, doc_to_model}
use cortex_rag.World.{World, Env}
use cortex_rag.Settings.{UploadSettings, ProcessingSettings}
use cortex_rag.Repo.Sql.{exists}
use cortex_rag.Repo.Sql.Laws.{exists_of_select_first, exists-append}
use cortex_rag.Repo.Documents.{has_checksum}
use cortex_rag.Documents.View.{DocumentView, UploadDocumentInput}
use cortex_rag.Documents.Upload.{upload_document}
use cortex_rag.Documents.Upload.Effect.{uploaded_version, uploaded_document, upload, upload_effect}
use cortex_rag.Repo.Documents

refused_where_taken :
    (env : Env) (settings : UploadSettings) (processing_settings : ProcessingSettings)
    (input : UploadDocumentInput) (w : World)
    → is_none (
        select_first (has_checksum w.db input.tenant_id (env.sha256_hex input.content)) w.documents)
      ≡ false
    → (is_ok (upload_document env settings processing_settings input w).0 ≡ false)
      × ((upload_document env settings processing_settings input w).1 ≡ w)
unfolding upload_document Documents.get_by_checksum Documents.with_version Documents.load_version
refused_where_taken env settings processing_settings input w taken = ground arith

module _ (env : Env) (settings : UploadSettings) (processing_settings : ProcessingSettings)
    (input : UploadDocumentInput) (w : World) {view : DocumentView}
    (uploaded_once : (upload env settings processing_settings input w).0 ≡ ok view) where
  abbrev after_upload : World
  after_upload = (upload env settings processing_settings input w).1

  abbrev is_uploaded_version : VersionRow → Bool
  is_uploaded_version v =
      v.document_id == env.uuid4 w.draws && v.checksum_sha256 == env.sha256_hex input.content

  version_is_there : exists is_uploaded_version after_upload.versions ≡ true
  unfolding version_to_model exists
  version_is_there =
      let (seen, docs, vers, files) =
        upload_effect env settings processing_settings input w uploaded_once in
      rw vers (
        ground (
          arith,
          exists-append is_uploaded_version w.versions (
              version_to_model w.server_now
                (uploaded_version env settings processing_settings input w)
              ∷ []),
        ))

  abbrev same_content : DocumentRow → Bool
  same_content = has_checksum after_upload.db input.tenant_id (env.sha256_hex input.content)

  document_is_there : exists same_content after_upload.documents ≡ true
  unfolding doc_to_model exists
  document_is_there =
      let (seen, docs, vers, files) =
        upload_effect env settings processing_settings input w uploaded_once in
      ap (exists same_content) docs
      ∙ (ground (
        arith,
        version_is_there,
        exists-append same_content w.documents (
            doc_to_model w.server_now (uploaded_document env settings processing_settings input w)
            ∷ []),
      ))

  checksum_is_taken : is_none (select_first same_content after_upload.documents) ≡ false
  checksum_is_taken =
      ground (arith, document_is_there, exists_of_select_first same_content after_upload.documents)

  -- Once an upload has succeeded, an upload of content with the same SHA-256 by the same tenant
  -- raises, whatever its name, type and space are, and changes nothing: no row, no file, no job, no
  -- event, not even a UUID drawn.
  pub duplicate_is_refused :
      (again : UploadDocumentInput)
      → again.tenant_id ≡ input.tenant_id
      → env.sha256_hex again.content ≡ env.sha256_hex input.content
      → (is_ok (upload_document env settings processing_settings again after_upload).0 ≡ false)
        × ((upload_document env settings processing_settings again after_upload).1 ≡ after_upload)
  duplicate_is_refused again same_tenant same_sum =
      refused_where_taken env settings processing_settings again after_upload
        (rw same_tenant (rw same_sum checksum_is_taken))
