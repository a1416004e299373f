-- ===== src/Documents/Versions.antt =====
-- `AddDocumentVersionUseCase` and `ListDocumentVersionsUseCase` (add_document_version.py,
-- list_document_versions.py).
pub mod Numbers
pub mod Effect
pub mod Rows
use cortex_rag.Base.{
  ℕ, ◌+◌, none, some, List, [], ◌∷◌, ◌++◌, map, if◌then◌else◌, ltb, length, Text, text,
}
use cortex_rag.Exec.{entity_not_found, Exception, new_error, pure, lift, or_raise, ◌>>=◌, ◌>>◌}
use cortex_rag.Status.{local}
use cortex_rag.Job.{Uuid, Time}
use cortex_rag.Document.{KnowledgeDocumentVersion}
use cortex_rag.Events.{document_version_added}
use cortex_rag.World.{Action, Env, publish, draw_uuid, read_clock, save_bytes}
use cortex_rag.Settings.{UploadSettings}
use cortex_rag.StoragePolicy.{build_document_version_key}
use cortex_rag.Validation.{validate_upload}
use cortex_rag.Documents.View.{
  DocumentVersionView, version_view, AddDocumentVersionInput, GetDocumentInput,
  ListDocumentVersionsOutput,
}
use cortex_rag.Documents.Upload.{version_filename}
use cortex_rag.Repo.Documents

-- `max(v.version_number for v in versions)`, from 0
unfoldable pub max_number : List KnowledgeDocumentVersion → ℕ
max_number [] = 0
max_number (v ∷ vs) =
    let rest = max_number vs in if ltb v.version_number rest then rest else v.version_number

-- `max(…) + 1 if existing_versions else 1`
unfoldable pub next_number : List KnowledgeDocumentVersion → ℕ
unfolding max_number
next_number [] = 1
next_number (v ∷ vs) = max_number (v ∷ vs) + 1

module _ (env : Env) where
  abbrev pub document_not_found : Uuid → Exception
  document_not_found document_id =
      new_error entity_not_found
        (some (text "Document " ++ (env.uuid_str document_id ++ text " not found.")))

  abbrev pub next_version :
      AddDocumentVersionInput → Uuid → Text → Text → Uuid → ℕ → Time → KnowledgeDocumentVersion
  next_version input document_id extension storage_key version_id number now = record {
    id = version_id;
    document_id = document_id;
    version_number = number;
    original_filename = input.original_filename;
    filename = version_filename env version_id extension;
    extension = extension;
    mime_type = input.content_type;
    size = length input.content;
    checksum_sha256 = env.sha256_hex input.content;
    storage_provider = local;
    storage_path = storage_key;
    page_count = none;
    metadata = [];
    uploaded_by = input.uploaded_by;
    created_at = some now;
  }

  unfoldable pub add_document_version :
      UploadSettings → AddDocumentVersionInput → Action DocumentVersionView
  unfolding draw_uuid read_clock save_bytes publish Documents.get Documents.list_versions
      Documents.add_version version_view next_number
  add_document_version settings input = do
    found ← Documents.get env input.tenant_id input.document_id
    document ← or_raise (document_not_found input.document_id) found
    extension ←
        lift (validate_upload env settings input.original_filename input.content input.content_type)
    let checksum = env.sha256_hex input.content
    existing_versions ← Documents.list_versions document.id
    version_id ← draw_uuid env
    now ← read_clock env
    let storage_key =
        build_document_version_key env input.tenant_id document.id version_id extension now
    save_bytes env storage_key input.content
    let version =
        next_version input document.id extension storage_key version_id
          (next_number existing_versions) now
    Documents.add_version env (record document { current_version_id = some version_id }) version
    publish (
        document_version_added document.id document.tenant_id version.id version.version_number
          checksum)
    pure (version_view version)

  unfoldable pub list_document_versions : GetDocumentInput → Action ListDocumentVersionsOutput
  unfolding Documents.get Documents.list_versions version_view
  list_document_versions input = do
    found ← Documents.get env input.tenant_id input.document_id
    document ← or_raise (document_not_found input.document_id) found
    versions ← Documents.list_versions document.id
    pure (record { document_id = document.id; versions = map version_view versions })
