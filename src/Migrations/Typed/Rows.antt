-- ===== src/Migrations/Typed/Rows.antt =====
-- What the typed-metadata migration does to the rows of the documents.
use cortex_rag.Base.{
  ◌≡◌, refl, true, false, Option, none, some, List, [], ◌∷◌, arith, ◌==◌, if◌then◌else◌, nat_eq,
  select_first, Text, text, text_eq,
}
use cortex_rag.Base.Str.{lstrip_dots}
use cortex_rag.Exec.{ok, is_ok}
use cortex_rag.Status.{DocumentStatus, document_status_value, document_status_from-value}
use cortex_rag.SourceType.{
  SourceType, source_type_value, source_type_from-value, extension_map, get_or_text, from_extension,
}
use cortex_rag.Metadata.{
  empty_metadata, strip_all, has_duplicates, any_blank, validate_language, validate_tags,
  validate_keywords, validate_metadata,
}
use cortex_rag.Document.{KnowledgeDocumentVersion, DocumentRow, VersionRow, doc_to_entity}
use cortex_rag.Migrations.Versioning.Rows.{FreeForm, MigratedDocument, is_current}
use cortex_rag.Metadata.Column.{
  MetadataColumn, strings_of, model_validate, model_dump, has_other, other_is_refused,
}

-- `CASE … WHEN extension THEN source type …`
unfoldable pub case_map : List (Text × Text)
case_map =
    (text "pdf", text "pdf")
    ∷ (text "doc", text "word")
    ∷ (text "docx", text "word")
    ∷ (text "rtf", text "word")
    ∷ (text "xls", text "excel")
    ∷ (text "xlsx", text "excel")
    ∷ (text "csv", text "excel")
    ∷ (text "ppt", text "powerpoint")
    ∷ (text "pptx", text "powerpoint")
    ∷ (text "md", text "markdown")
    ∷ (text "markdown", text "markdown")
    ∷ (text "txt", text "text")
    ∷ (text "html", text "html")
    ∷ (text "htm", text "html")
    ∷ (text "png", text "image")
    ∷ (text "jpg", text "image")
    ∷ (text "jpeg", text "image")
    ∷ (text "gif", text "image")
    ∷ (text "webp", text "image")
    ∷ (text "tiff", text "image")
    ∷ (text "eml", text "email")
    ∷ (text "msg", text "email")
    ∷ []

abbrev case_of : Text → List (Text × Text) → Text
case_of s [] = text "text"
case_of s ((j, t) ∷ m) = if s == j then t else case_of s m

-- The column with the old dictionary under `custom_properties`, whatever its values are.
unfoldable pub wrapped : FreeForm → MetadataColumn
unfolding model_dump
wrapped m = record (model_dump empty_metadata) { custom_properties = m }

-- `lower` is the database's.
module _ (lower : Text → Text) where
  -- The source type after the first two UPDATEs.
  unfoldable pub source_type_after : List VersionRow → MigratedDocument → Text
  unfolding case_map
  source_type_after versions d = elim (select_first (is_current d) versions) [
    | none ↦ if d.source_type == text "file_upload" then text "text" else d.source_type
    | some v ↦ case_of (lower v.extension) case_map
  ]

  unfoldable pub upgrade_row : List VersionRow → MigratedDocument → DocumentRow
  unfolding source_type_after wrapped
  upgrade_row versions d = record {
    id = d.id;
    tenant_id = d.tenant_id;
    knowledge_space_id = d.knowledge_space_id;
    title = d.title;
    source_type = source_type_after versions d;
    current_version_id = d.current_version_id;
    status = d.status;
    meta = wrapped d.metadata;
    created_by = d.created_by;
    deleted_at = d.deleted_at;
    created_at = d.created_at;
    updated_at = d.updated_at;
  }

unfoldable pub downgrade_row : DocumentRow → MigratedDocument
downgrade_row d = record {
  id = d.id;
  tenant_id = d.tenant_id;
  knowledge_space_id = d.knowledge_space_id;
  title = d.title;
  source_type = text "file_upload";
  current_version_id = d.current_version_id;
  status = d.status;
  metadata = d.meta.custom_properties;
  created_by = d.created_by;
  deleted_at = d.deleted_at;
  created_at = d.created_at;
  updated_at = d.updated_at;
}

values_of : List (Text × SourceType) → List (Text × Text)
values_of [] = []
values_of ((j, t) ∷ m) = (j, source_type_value t) ∷ values_of m

case_of-values_of :
    (s : Text) (m : List (Text × SourceType))
    → case_of s (values_of m) ≡ source_type_value (get_or_text s m)
unfolding values_of
case_of-values_of s [] = refl
case_of-values_of s ((j, t) ∷ m) = ground (arith, case_of-values_of s m)

same_map : case_map ≡ values_of extension_map
unfolding case_map values_of extension_map
same_map = refl

-- The CASE of the migration gives each extension that does not start with a dot the source type that
-- `SourceType.from_extension` gives it, where the database's `lower` is Python's.
pub case-from_extension :
    (lower : Text → Text) (extension : Text)
    → lstrip_dots extension ≡ extension
    → case_of (lower extension) case_map ≡ source_type_value (from_extension lower extension)
unfolding from_extension
case-from_extension lower extension plain =
    rw plain (rw same_map (case_of-values_of (lower extension) extension_map))

wrapped_is_valid :
    (lower : Text → Text) (m : FreeForm) (props : List (Text × Text))
    → strings_of m ≡ ok props
    → model_validate lower (wrapped m) ≡ ok (record empty_metadata { custom_properties = props })
unfolding model_validate wrapped model_dump validate_metadata validate_language validate_tags
    validate_keywords strip_all any_blank has_duplicates
wrapped_is_valid lower m props strings = rw strings refl

source_type_after-current :
    (lower : Text → Text) (versions : List VersionRow) (d : MigratedDocument) (v : VersionRow)
    → select_first (is_current d) versions ≡ some v
    → lstrip_dots v.extension ≡ v.extension
    → source_type_after lower versions d ≡ source_type_value (from_extension lower v.extension)
unfolding source_type_after
source_type_after-current lower versions d v current plain =
    rw (current, source_type_after) (case-from_extension lower v.extension plain)

-- A document as the versioning migration left it, whose current version is there, whose status the
-- program knows, whose source type is that migration's and whose old metadata has only strings, is read
-- after the upgrade: its source type is that of the version's extension, where that does not start with
-- a dot and the database's `lower` is Python's, and its metadata is empty but for the old dictionary.
-- The downgrade gives the row back as it was.
pub read_upgraded_row :
    (lower : Text → Text) (versions : List VersionRow) (d : MigratedDocument) (v : VersionRow)
    (status : DocumentStatus) (active : Option KnowledgeDocumentVersion)
    (props : List (Text × Text))
    → select_first (is_current d) versions ≡ some v
    → d.status ≡ document_status_value status
    → d.source_type ≡ text "file_upload"
    → lstrip_dots v.extension ≡ v.extension
    → strings_of d.metadata ≡ ok props
    → (doc_to_entity lower (upgrade_row lower versions d) active
        ≡ ok (record {
          id = d.id;
          tenant_id = d.tenant_id;
          title = d.title;
          source_type = from_extension lower v.extension;
          knowledge_space_id = d.knowledge_space_id;
          current_version_id = d.current_version_id;
          status = status;
          metadata = record empty_metadata { custom_properties = props };
          created_by = d.created_by;
          created_at = some d.created_at;
          updated_at = some d.updated_at;
          deleted_at = d.deleted_at;
          active_version = active;
        }))
      × (downgrade_row (upgrade_row lower versions d) ≡ d)
unfolding doc_to_entity upgrade_row downgrade_row wrapped
read_upgraded_row lower versions d v status active props current known legacy plain strings = (
  rw (source_type_after-current lower versions d v current plain) (
      rw known (
        rw (source_type_from-value (from_extension lower v.extension)) (
          rw (document_status_from-value status)
            (rw (wrapped_is_valid lower d.metadata props strings) refl)))),
  ground (arith, legacy),
)

-- A document whose old metadata has a value that is no string cannot be read after the upgrade: the
-- migration keeps that value under `custom_properties`, which admits strings only.
pub loose_row_is_refused :
    (lower : Text → Text) (versions : List VersionRow) (d : MigratedDocument)
    (active : Option KnowledgeDocumentVersion)
    → has_other d.metadata ≡ true
    → is_ok (doc_to_entity lower (upgrade_row lower versions d) active) ≡ false
unfolding doc_to_entity upgrade_row wrapped
loose_row_is_refused lower versions d active other =
    ground (arith, other_is_refused lower (wrapped d.metadata) other)
