-- ===== src/Documents/Upload/Rows.antt =====
-- The rows that an upload makes, field by field.
use cortex_rag.Base.{◌+◌, ◌≡◌, refl, ap, ◌∙◌, true, none, some, [], ◌∷◌, ◌++◌, arith, length, text}
use cortex_rag.Repo.Jobs
use cortex_rag.Exec.{Result, ok, err, is_ok}
use cortex_rag.SourceType.{source_type_value, from_extension}
use cortex_rag.Document.{DocumentRow, VersionRow, version_to_model, doc_to_model}
use cortex_rag.World.{JobRow, World, Env}
use cortex_rag.Settings.{UploadSettings, ProcessingSettings}
use cortex_rag.Base.Str.{after_last_dot}
use cortex_rag.Validation.{validate_upload}
use cortex_rag.Documents.View.{DocumentView, document_view, UploadDocumentInput}
use cortex_rag.Documents.Upload.{ingestion_of, upload_document}
use cortex_rag.Documents.Upload.Effect.{
  uploaded_version, uploaded_document, before_job, upload, upload_effect,
}
use cortex_rag.Processing.Create.{JobView, CreateProcessingJobInput, new_job, create_processing_job}
use cortex_rag.Processing.Create.Effect.{create_effect}

module _ (env : Env) (settings : UploadSettings) (processing_settings : ProcessingSettings)
    (input : UploadDocumentInput) (w : World) where
  abbrev job_input : CreateProcessingJobInput
  job_input =
      ingestion_of env (uploaded_document env settings processing_settings input w)
        (uploaded_version env settings processing_settings input w)

  abbrev creating : Result JobView × World
  creating =
      create_processing_job env processing_settings job_input
        (before_job env settings processing_settings input w)

  -- An upload that returns ends with the creation of its job.
  ends_with_job :
      {view : DocumentView}
      → (upload env settings processing_settings input w).0 ≡ ok view
      → (is_ok creating.0 ≡ true)
        × ((upload env settings processing_settings input w).1 ≡ creating.1)
  unfolding upload_document validate_upload
  ends_with_job {view} h = ground arith

  -- What the rows of a document, of a version and of a job have of the upload and of each other.
  abbrev pub IsUpload : DocumentRow → VersionRow → JobRow → Type 0
  IsUpload d v j =
      (d.tenant_id ≡ input.tenant_id)
      × (d.title ≡ input.original_filename)
      × (d.knowledge_space_id ≡ input.knowledge_space_id)
      × (d.created_by ≡ input.uploaded_by)
      × (d.source_type
          ≡ source_type_value
              (from_extension env.lower (env.lower (after_last_dot input.original_filename))))
      × (d.status ≡ text "uploaded")
      × (d.deleted_at ≡ none)
      × (d.current_version_id ≡ some v.id)
      × (v.document_id ≡ d.id)
      × (v.version_number ≡ 1)
      × (v.original_filename ≡ input.original_filename)
      × (v.extension ≡ env.lower (after_last_dot input.original_filename))
      × (v.mime_type ≡ input.content_type)
      × (v.size ≡ length input.content)
      × (v.checksum_sha256 ≡ env.sha256_hex input.content)
      × (v.uploaded_by ≡ input.uploaded_by)
      × (j.tenant_id ≡ input.tenant_id)
      × (j.document_id ≡ d.id)
      × (j.version_id ≡ some v.id)
      × (j.job_type ≡ text "document_ingestion")
      × (j.status ≡ text "queued")

  the_rows_fit :
      IsUpload
        (doc_to_model w.server_now (uploaded_document env settings processing_settings input w))
        (version_to_model w.server_now (uploaded_version env settings processing_settings input w))
        (Jobs.to_model w.server_now (
          new_job processing_settings job_input
            (env.uuid4 (w.draws + 2))
            (env.now (w.readings + 1))))
  unfolding doc_to_model version_to_model Jobs.to_model
  the_rows_fit = (
    refl, refl, refl, refl, refl, refl, refl, refl, refl, refl, refl, refl, refl, refl, refl, refl,
    refl, refl, refl, refl, refl,
  )

  job_of :
      (created : Result JobView)
      → creating.0 ≡ created
      → is_ok created ≡ true
      → (creating.1.jobs
          ≡ w.jobs
            ++ (Jobs.to_model w.server_now (
                  new_job processing_settings job_input
                    (env.uuid4 (w.draws + 2))
                    (env.now (w.readings + 1)))
                ∷ []))
        × (creating.1.enqueued ≡ w.enqueued ++ ((input.tenant_id, env.uuid4 (w.draws + 2)) ∷ []))
  job_of (err e) same returned = ground arith
  job_of (ok view) same returned =
      let (seen, after) =
        create_effect env processing_settings job_input
          (before_job env settings processing_settings input w) same in
      (ap (λ v. v.jobs) after, ap (λ v. v.enqueued) after)

  -- Where an upload returns, one document, one version, one job, one file and one message have been
  -- added at the end of what was there. The document has the tenant, title, space and user of the
  -- upload and the source type of its extension, is uploaded and not deleted, and its current version
  -- is that version; the version is the document's first, with the upload's name, type, size and
  -- checksum; the file is the content, under the version's path; the job is a queued ingestion of that
  -- document and version, and the message names it. The view is that of this document and version.
  pub uploaded_rows :
      {view : DocumentView}
      → (upload env settings processing_settings input w).0 ≡ ok view
      → let after = (upload env settings processing_settings input w).1 in
        (d : DocumentRow) × (v : VersionRow) × (j : JobRow) × (after.documents
          ≡ w.documents ++ (d ∷ []))
        × (after.versions ≡ w.versions ++ (v ∷ []))
        × (after.jobs ≡ w.jobs ++ (j ∷ []))
        × (after.saved ≡ w.saved ++ ((v.storage_path, input.content) ∷ []))
        × (after.enqueued ≡ w.enqueued ++ ((input.tenant_id, j.id) ∷ []))
        × IsUpload d v j
        × (view.id ≡ d.id)
        × (view.current_version_id ≡ some v.id)
  unfolding doc_to_model version_to_model Jobs.to_model document_view
  uploaded_rows {view} h =
      let (seen, docs, vers, files) = upload_effect env settings processing_settings input w h in
      let (returned, end) = ends_with_job h in
      let (jobs, queue) = job_of creating.0 refl returned in
      (
        doc_to_model w.server_now (uploaded_document env settings processing_settings input w),
        version_to_model w.server_now (uploaded_version env settings processing_settings input w),
        Jobs.to_model w.server_now (
            new_job processing_settings job_input (env.uuid4 (w.draws + 2))
              (env.now (w.readings + 1))),
        docs,
        vers,
        ap (λ v. v.jobs) end ∙ jobs,
        files,
        ap (λ v. v.enqueued) end ∙ queue,
        the_rows_fit,
        ap (λ v. v.id) seen,
        ap (λ v. v.current_version_id) seen,
      )
