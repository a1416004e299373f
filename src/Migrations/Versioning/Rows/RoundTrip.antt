-- ===== src/Migrations/Versioning/Rows/RoundTrip.antt =====
-- What the document-versioning migration keeps.
use mathlib.Core.List.{append_assoc}
use mathlib.Core.Option.{some-injective}
use cortex_rag.Base.{
  ℕ, ◌+◌, ◌≤◌, ◌≡◌, refl, sym, ap, ◌∙◌, false, some, List, [], ◌∷◌, ◌++◌, map, arith, ◌==◌, nat_eq,
  select_first, text, text_eq,
}
use cortex_rag.Job.{Uuid}
use cortex_rag.Document.{VersionRow}
use cortex_rag.Repo.Sql.{exists}
use cortex_rag.Repo.Sql.Laws.{exists-append, AreDistinct, select_first-behind}
use cortex_rag.Repo.Documents.{owns}
use cortex_rag.Migrations.Versioning.Rows.{
  LegacyDocument, MigratedDocument, first_version_of, insert_versions, widened, wire, narrow,
  narrow_all, upgrade_rows, RestoredDocument, restore, downgrade_rows,
}

-- The row that the upgrade makes, with the version whose UUID it was given.
abbrev pub migrated_with : Uuid → LegacyDocument → MigratedDocument
migrated_with version_id d = record {
  id = d.id;
  tenant_id = d.tenant_id;
  knowledge_space_id = d.collection_id;
  title = d.original_filename;
  source_type = text "file_upload";
  current_version_id = some version_id;
  status = d.status;
  metadata = d.metadata;
  created_by = d.uploaded_by;
  deleted_at = d.deleted_at;
  created_at = d.created_at;
  updated_at = d.updated_at;
}

abbrev pub migrated_from : (ℕ → Uuid) → ℕ → List LegacyDocument → List MigratedDocument
migrated_from uuid i [] = []
migrated_from uuid i (d ∷ ds) = migrated_with (uuid i) d ∷ migrated_from uuid (i + 1) ds

-- The row as it was, in columns that may be null.
abbrev pub restored : LegacyDocument → RestoredDocument
restored d = record {
  id = d.id;
  tenant_id = d.tenant_id;
  status = d.status;
  metadata = d.metadata;
  deleted_at = d.deleted_at;
  created_at = d.created_at;
  updated_at = d.updated_at;
  collection_id = d.collection_id;
  page_count = d.page_count;
  uploaded_by = d.uploaded_by;
  storage_path = some d.storage_path;
  storage_provider = some d.storage_provider;
  checksum_sha256 = some d.checksum_sha256;
  size = some d.size;
  mime_type = some d.mime_type;
  extension = some d.extension;
  filename = some d.filename;
  original_filename = some d.original_filename;
}

-- None of the versions is of one of the documents.
abbrev AreUnowned : List VersionRow → List LegacyDocument → Type 0
AreUnowned vs [] = Unit
AreUnowned vs (d ∷ ds) = (exists (owns d.id) vs ≡ false) × AreUnowned vs ds

still_unowned :
    (vs : List VersionRow) (d : LegacyDocument) (version_id : Uuid) (ds : List LegacyDocument)
    → exists (λ j. j == d.id) (map (λ e. e.id) ds) ≡ false
    → AreUnowned vs ds
    → AreUnowned (vs ++ (first_version_of version_id d ∷ [])) ds
unfolding exists
still_unowned vs d version_id [] apart h = tt
still_unowned vs d version_id (e ∷ ds) apart h = (
  ground (arith, exists-append (owns e.id) vs (first_version_of version_id d ∷ [])),
  still_unowned vs d version_id ds (ground arith) h.1,
)

wire_found :
    (vs : List VersionRow) (d : LegacyDocument) (version_id : Uuid)
    → select_first (owns d.id) vs ≡ some (first_version_of version_id d)
    → narrow (wire vs (widened d)) ≡ some (migrated_with version_id d)
unfolding wire
wire_found vs d version_id found = ground (arith, found)

wire_all :
    (uuid : ℕ → Uuid) (vs before : List VersionRow) (i : ℕ) (ds : List LegacyDocument)
    → vs ≡ before ++ insert_versions uuid i ds
    → AreDistinct (map (λ d. d.id) ds)
    → AreUnowned before ds
    → narrow_all (map (λ d. wire vs (widened d)) ds) ≡ some (migrated_from uuid i ds)
unfolding narrow_all insert_versions
wire_all uuid vs before i [] e distinct unowned = refl
wire_all uuid vs before i (d ∷ ds) e distinct unowned =
    let v = first_version_of (uuid i) d in
    let rest = insert_versions uuid (i + 1) ds in
    let here =
      wire_found vs d (uuid i)
        (rw e (select_first-behind (owns d.id) before v rest unowned.0 (ground arith))) in
    let later =
      wire_all uuid vs (before ++ (v ∷ [])) (i + 1) ds (e ∙ sym (append_assoc before (v ∷ []) rest))
        distinct.1 (still_unowned before d (uuid i) ds distinct.0 unowned.1) in
    ground (arith, here, later)

none_owned : (ds : List LegacyDocument) → AreUnowned [] ds
unfolding exists
none_owned [] = tt
none_owned (d ∷ ds) = (refl, none_owned ds)

-- Where the documents have distinct ids, the upgrade is refused for none of them: each becomes a
-- document of the same id, tenant, status, metadata and times, titled by its file's name and pointing
-- at the version that was made for it; and the versions are those of the INSERT, in its order.
pub upgrade_rows_lem :
    (uuid : ℕ → Uuid) (ds : List LegacyDocument)
    → AreDistinct (map (λ d. d.id) ds)
    → upgrade_rows uuid ds ≡ (some (migrated_from uuid 0 ds), insert_versions uuid 0 ds)
unfolding upgrade_rows
upgrade_rows_lem uuid ds distinct =
    rw (wire_all uuid (insert_versions uuid 0 ds) [] 0 ds refl distinct (none_owned ds)) refl

-- None of the versions has the UUID of a row from `i` on.
abbrev LacksLater : (ℕ → Uuid) → ℕ → List VersionRow → Type 0
LacksLater uuid i vs = (j : ℕ) → i ≤ j → exists (λ v. v.id == uuid j) vs ≡ false

restore_found :
    (vs : List VersionRow) (d : LegacyDocument) (version_id : Uuid)
    → select_first (λ v. v.id == version_id) vs ≡ some (first_version_of version_id d)
    → restore vs (migrated_with version_id d) ≡ restored d
unfolding restore
restore_found vs d version_id found = ground (arith, found)

module _ (uuid : ℕ → Uuid) (uuid_injective : (i j : ℕ) → uuid i ≡ uuid j → i ≡ j) where
  later_lacks :
      (i : ℕ) (before : List VersionRow) (d : LegacyDocument)
      → LacksLater uuid i before
      → LacksLater uuid (i + 1) (before ++ (first_version_of (uuid i) d ∷ []))
  unfolding exists
  later_lacks i before d h j le = ground (
    arith,
    h j,
    uuid_injective i j,
    exists-append (λ v. v.id == uuid j) before (first_version_of (uuid i) d ∷ []),
  )

  restore_all :
      (vs before : List VersionRow) (i : ℕ) (ds : List LegacyDocument)
      → vs ≡ before ++ insert_versions uuid i ds
      → LacksLater uuid i before
      → map (restore vs) (migrated_from uuid i ds) ≡ map restored ds
  unfolding insert_versions
  restore_all vs before i [] e lacks = refl
  restore_all vs before i (d ∷ ds) e lacks =
      let v = first_version_of (uuid i) d in
      let rest = insert_versions uuid (i + 1) ds in
      let here = restore_found vs d (uuid i) (
        rw e (
          select_first-behind (λ u. u.id == uuid i) before v rest (lacks i (omega arith))
            (ground arith))) in
      let later =
        restore_all vs (before ++ (v ∷ [])) (i + 1) ds (e ∙ sym (append_assoc before (v ∷ []) rest))
          (later_lacks i before d lacks) in
      cc (here, later)

  -- Where the documents have distinct ids and the database makes distinct UUIDs, upgrading and
  -- downgrading loses nothing of the documents: each field of each row is what it was.
  pub downgrade_rows-upgrade_rows :
      (ds : List LegacyDocument) (migrated : List MigratedDocument)
      → AreDistinct (map (λ d. d.id) ds)
      → (upgrade_rows uuid ds).0 ≡ some migrated
      → downgrade_rows (upgrade_rows uuid ds).1 migrated ≡ map restored ds
  unfolding downgrade_rows upgrade_rows exists
  downgrade_rows-upgrade_rows ds migrated distinct upgraded =
      let run = upgrade_rows_lem uuid ds distinct in
      let same : migrated_from uuid 0 ds ≡ migrated =
        some-injective _ _ (sym (ap (λ r. r.0) run) ∙ upgraded) in
      rw (← same) (restore_all (insert_versions uuid 0 ds) [] 0 ds refl (λ j le. refl))
