-- ===== src/Documents/Upload/Effect.antt =====
-- What an upload leaves behind.
use cortex_rag.Base.{◌+◌, ◌≡◌, false, [], ◌∷◌, ◌++◌, arith, Text}
use cortex_rag.Base.Str.{after_last_dot}
use cortex_rag.Repo.Documents.{by_id, clashes}
use cortex_rag.Repo.Sql.{exists}
use cortex_rag.Exec.{Result, ok}
use cortex_rag.Document.{
  KnowledgeDocumentVersion, KnowledgeDocument, version_to_model, doc_to_model,
}
use cortex_rag.World.{World, Env}
use cortex_rag.Settings.{UploadSettings, ProcessingSettings}
use cortex_rag.Events.{document_uploaded}
use cortex_rag.StoragePolicy.{build_document_version_key}
use cortex_rag.Validation.{validate_upload}
use cortex_rag.Processing.Create.Effect.{create_keeps}
use cortex_rag.Documents.View.{DocumentView, document_view, UploadDocumentInput}
use cortex_rag.Documents.Upload.{first_version, new_document, ingestion_of, upload_document}

module _ (env : Env) (settings : UploadSettings) (processing_settings : ProcessingSettings)
    (input : UploadDocumentInput) (w : World) where
  -- The version and the document that an upload makes: with the next two UUIDs and the clock's next
  -- reading.
  abbrev pub uploaded_extension : Text
  uploaded_extension = env.lower (after_last_dot input.original_filename)

  abbrev pub uploaded_key : Text
  uploaded_key =
      build_document_version_key env input.tenant_id (env.uuid4 w.draws) (env.uuid4 (w.draws + 1))
        uploaded_extension (env.now w.readings)

  abbrev pub uploaded_version : KnowledgeDocumentVersion
  uploaded_version =
      first_version env input uploaded_extension uploaded_key (env.uuid4 w.draws)
        (env.uuid4 (w.draws + 1)) (env.now w.readings)

  abbrev pub uploaded_document : KnowledgeDocument
  uploaded_document =
      new_document env input uploaded_extension uploaded_version (env.now w.readings)

  -- The world in which the upload registers its job.
  abbrev pub before_job : World
  before_job = record w {
    db = record w.db {
      documents = w.documents ++ (doc_to_model w.server_now uploaded_document ∷ []);
      versions = w.versions ++ (version_to_model w.server_now uploaded_version ∷ []);
    };
    draws = w.draws + 2;
    readings = w.readings + 1;
    saved = w.saved ++ ((uploaded_key, input.content) ∷ []);
    published =
        w.published
        ++ (document_uploaded uploaded_document.id uploaded_document.tenant_id uploaded_version.id 1
              (env.sha256_hex input.content)
            ∷ []);
  }

  abbrev pub upload : Result DocumentView × World
  upload = upload_document env settings processing_settings input w

  pub upload_effect :
      {view : DocumentView}
      → upload.0 ≡ ok view
      → (view ≡ document_view uploaded_document)
        × (upload.1.documents ≡ w.documents ++ (doc_to_model w.server_now uploaded_document ∷ []))
        × (upload.1.versions ≡ w.versions ++ (version_to_model w.server_now uploaded_version ∷ []))
        × (upload.1.saved ≡ w.saved ++ ((uploaded_key, input.content) ∷ []))
  unfolding upload_document validate_upload
  upload_effect {view} h = ground (
    arith,
    create_keeps env processing_settings (ingestion_of env uploaded_document uploaded_version)
        before_job,
  )

  -- Before the upload, neither the keys of the version nor that of the document had a row.
  pub upload_fresh :
      {view : DocumentView}
      → upload.0 ≡ ok view
      → (exists (clashes (version_to_model w.server_now uploaded_version)) w.versions ≡ false)
        × (exists (by_id uploaded_document.id) w.documents ≡ false)
  unfolding upload_document validate_upload
  upload_fresh {view} h = ground arith
