-- ===== src/Migrations/Versioning/Rows.antt =====
-- What the document-versioning migration does to the rows (steps 2 to 5 of `upgrade`, and the first
-- two of `downgrade`).
pub mod RoundTrip
use cortex_rag.Base.{
  ℕ, ◌+◌, Bool, false, Option, none, some, List, [], ◌∷◌, map, ◌==◌, nat_eq, select_first, Text,
  text, text_eq,
}
use cortex_rag.Job.{Uuid, Time}
use cortex_rag.Document.{VersionRow}
use cortex_rag.Repo.Documents.{owns}
use cortex_rag.Metadata.Column.{JsonDict}
use cortex_rag.Repo.Documents

-- The free-form `metadata` of before the typed one: a JSON object with values of any kind.
abbrev pub FreeForm : Type 0
FreeForm = JsonDict

-- A row of `knowledge_documents` before the migration.
pub record LegacyDocument : Type 0 where
  pub id : Uuid
  pub tenant_id : Text
  pub collection_id : Option Uuid
  pub original_filename : Text
  pub filename : Text
  pub extension : Text
  pub mime_type : Text
  pub size : ℕ
  pub checksum_sha256 : Text
  pub storage_provider : Text
  pub storage_path : Text
  pub uploaded_by : Option Text
  pub status : Text
  pub metadata : FreeForm
  pub page_count : Option ℕ
  pub deleted_at : Option Time
  pub created_at : Time
  pub updated_at : Time

-- That row with the new columns, which are null at first.
pub record WideDocument : Type 0 where
  pub old : LegacyDocument
  pub knowledge_space_id : Option Uuid
  pub title : Option Text
  pub source_type : Option Text
  pub current_version_id : Option Uuid
  pub created_by : Option Text

-- The row after it.
pub record MigratedDocument : Type 0 where
  pub id : Uuid
  pub tenant_id : Text
  pub knowledge_space_id : Option Uuid
  pub title : Text
  pub source_type : Text
  pub current_version_id : Option Uuid
  pub status : Text
  pub metadata : FreeForm
  pub created_by : Option Text
  pub deleted_at : Option Time
  pub created_at : Time
  pub updated_at : Time

-- The version of the INSERT for a document; `version_id` is what `gen_random_uuid()` gives for it.
abbrev pub first_version_of : Uuid → LegacyDocument → VersionRow
first_version_of version_id d = record {
  id = version_id;
  document_id = d.id;
  version_number = 1;
  original_filename = d.original_filename;
  filename = d.filename;
  extension = d.extension;
  mime_type = d.mime_type;
  size = d.size;
  checksum_sha256 = d.checksum_sha256;
  storage_provider = d.storage_provider;
  storage_path = d.storage_path;
  page_count = d.page_count;
  meta = d.metadata;
  uploaded_by = d.uploaded_by;
  created_at = d.created_at;
}

-- The INSERT, where `uuid i` is what `gen_random_uuid()` gives for the row number `i`.
unfoldable pub insert_versions : (ℕ → Uuid) → ℕ → List LegacyDocument → List VersionRow
insert_versions uuid i [] = []
insert_versions uuid i (d ∷ ds) = first_version_of (uuid i) d ∷ insert_versions uuid (i + 1) ds

abbrev pub widened : LegacyDocument → WideDocument
widened d = record {
  old = d;
  knowledge_space_id = none;
  title = none;
  source_type = none;
  current_version_id = none;
  created_by = none;
}

-- The UPDATE … FROM of the upgrade.
unfoldable pub wire : List VersionRow → WideDocument → WideDocument
wire versions d = elim (select_first (owns d.old.id) versions) [
  | none ↦ d
  | some v ↦ record d {
    current_version_id = some v.id;
    title = some d.old.original_filename;
    source_type = some (text "file_upload");
    created_by = d.old.uploaded_by;
    knowledge_space_id = d.old.collection_id;
  }
]

-- NOT NULL on the title and the source type, which a row with a null refuses; then the physical
-- columns are dropped.
abbrev narrow_to : WideDocument → Option Text → Option Text → Option MigratedDocument
narrow_to d (some title) (some source_type) = some (record {
  id = d.old.id;
  tenant_id = d.old.tenant_id;
  knowledge_space_id = d.knowledge_space_id;
  title = title;
  source_type = source_type;
  current_version_id = d.current_version_id;
  status = d.old.status;
  metadata = d.old.metadata;
  created_by = d.created_by;
  deleted_at = d.old.deleted_at;
  created_at = d.old.created_at;
  updated_at = d.old.updated_at;
})
narrow_to d _ _ = none

abbrev pub narrow : WideDocument → Option MigratedDocument
narrow d = narrow_to d d.title d.source_type

abbrev cons_optional {ℓ} : {A : Type ℓ} → Option A → Option (List A) → Option (List A)
cons_optional (some x) (some xs) = some (x ∷ xs)
cons_optional _ _ = none

unfoldable pub narrow_all : List WideDocument → Option (List MigratedDocument)
narrow_all [] = some []
narrow_all (d ∷ ds) = cons_optional (narrow d) (narrow_all ds)

-- The rows of both tables after `upgrade`; the versions' table was just created.
unfoldable pub upgrade_rows :
    (ℕ → Uuid) → List LegacyDocument → Option (List MigratedDocument) × List VersionRow
unfolding insert_versions wire narrow_all
upgrade_rows uuid ds =
    let versions = insert_versions uuid 0 ds in
    (narrow_all (map (λ d. wire versions (widened d)) ds), versions)

-- A row after the downgrade: the physical columns are back, and may be null.
pub record RestoredDocument : Type 0 where
  pub id : Uuid
  pub tenant_id : Text
  pub status : Text
  pub metadata : FreeForm
  pub deleted_at : Option Time
  pub created_at : Time
  pub updated_at : Time
  pub collection_id : Option Uuid
  pub page_count : Option ℕ
  pub uploaded_by : Option Text
  pub storage_path : Option Text
  pub storage_provider : Option Text
  pub checksum_sha256 : Option Text
  pub size : Option ℕ
  pub mime_type : Option Text
  pub extension : Option Text
  pub filename : Option Text
  pub original_filename : Option Text

abbrev pub blank : MigratedDocument → RestoredDocument
blank d = record {
  id = d.id;
  tenant_id = d.tenant_id;
  status = d.status;
  metadata = d.metadata;
  deleted_at = d.deleted_at;
  created_at = d.created_at;
  updated_at = d.updated_at;
  collection_id = none;
  page_count = none;
  uploaded_by = none;
  storage_path = none;
  storage_provider = none;
  checksum_sha256 = none;
  size = none;
  mime_type = none;
  extension = none;
  filename = none;
  original_filename = none;
}

-- `WHERE d.current_version_id = v.id`, where NULL is equal to nothing
abbrev pub is_current : MigratedDocument → VersionRow → Bool
is_current d v = elim d.current_version_id [ none ↦ false | some i ↦ v.id == i ]

-- The UPDATE … FROM of the downgrade.
unfoldable pub restore : List VersionRow → MigratedDocument → RestoredDocument
restore versions d = elim (select_first (is_current d) versions) [
  | none ↦ blank d
  | some v ↦ record (blank d) {
    original_filename = some v.original_filename;
    filename = some v.filename;
    extension = some v.extension;
    mime_type = some v.mime_type;
    size = some v.size;
    checksum_sha256 = some v.checksum_sha256;
    storage_provider = some v.storage_provider;
    storage_path = some v.storage_path;
    page_count = v.page_count;
    uploaded_by = v.uploaded_by;
    collection_id = d.knowledge_space_id;
  }
]

unfoldable pub downgrade_rows : List VersionRow → List MigratedDocument → List RestoredDocument
unfolding restore
downgrade_rows versions ds = map (restore versions) ds
