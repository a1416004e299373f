-- ===== src/Documents/Manage/Absent.antt =====
-- A document that the tenant has not, or has deleted.
use cortex_rag.Base.{◌≡◌, none, arith, select_first, Text}
use cortex_rag.Repo.Documents.{is_live}
use cortex_rag.Job.{Uuid}
use cortex_rag.Exec.{err}
use cortex_rag.World.{World, Env}
use cortex_rag.Settings.{UploadSettings}
use cortex_rag.Documents.View.{
  AddDocumentVersionInput, UpdateDocumentMetadataInput, GetDocumentInput,
}
use cortex_rag.Documents.Versions.{document_not_found, add_document_version, list_document_versions}
use cortex_rag.Documents.Manage.{get_document, delete_document, update_document_metadata}
use cortex_rag.Documents.Process.{document_not_found_for, process_document}
use cortex_rag.Repo.Documents
use cortex_rag.Repo.Documents

module _ (env : Env) (w : World) (tenant_id : Text) (document_id : Uuid)
    (absent : select_first (is_live tenant_id document_id) w.documents ≡ none) where
  -- Where no live document of the tenant has the id, be it that no document has, that it is another
  -- tenant's or that it was deleted, then reading it, deleting it, editing it, adding a version,
  -- listing the versions and processing it all raise `EntityNotFoundError` and change nothing.
  pub absent_is_refused :
      (settings : UploadSettings) (new : AddDocumentVersionInput)
      (changes : UpdateDocumentMetadataInput)
      → new.tenant_id ≡ tenant_id
      → new.document_id ≡ document_id
      → changes.tenant_id ≡ tenant_id
      → changes.document_id ≡ document_id
      → let key : GetDocumentInput = record { tenant_id = tenant_id; document_id = document_id } in
        let refused = document_not_found env document_id in
        (get_document env key w ≡ (err refused, w))
        × (delete_document env key w ≡ (err refused, w))
        × (update_document_metadata env changes w ≡ (err refused, w))
        × (add_document_version env settings new w ≡ (err refused, w))
        × (list_document_versions env key w ≡ (err refused, w))
        × (process_document env tenant_id document_id w
            ≡ (err (document_not_found_for env document_id tenant_id), w))
  unfolding Documents.get get_document delete_document update_document_metadata add_document_version
      list_document_versions process_document
  absent_is_refused settings new changes e1 e2 e3 e4 = ground arith
