-- ===== src/Tests/Migrations.antt =====
-- The migrations, run on an empty database and on a few rows.
use cortex_rag.Base.{
  ℕ, ◌+◌, ◌≡◌, refl, ap, ◌↔◌, true, false, none, some, List, [], ◌∷◌, map, arith, nat_eq, Text,
  text, text_eq,
}
use cortex_rag.Status.{uploaded}
use cortex_rag.SourceType.{from_extension}
use cortex_rag.Job.{Uuid}
use cortex_rag.Metadata.{empty_metadata}
use cortex_rag.Document.{doc_to_entity}
use cortex_rag.Exec.{ok, is_ok}
use cortex_rag.Migrations.Schema.{varchar, ForeignKey, Index, Schema, apply, run, plain_index}
use cortex_rag.Migrations.Head.{declared, empty_schema, upgrade_head}
use cortex_rag.Migrations.Head.Agreement.{
  Declaration, declarations, references, migrated, head_is_declared,
}
use cortex_rag.Migrations.Versioning.Rows.{
  LegacyDocument, MigratedDocument, first_version_of, upgrade_rows, downgrade_rows,
}
use cortex_rag.Migrations.Versioning.Rows.RoundTrip.{
  migrated_with, migrated_from, restored, upgrade_rows_lem, downgrade_rows-upgrade_rows,
}
use cortex_rag.Migrations.Typed.Rows.{
  upgrade_row, downgrade_row, read_upgraded_row, loose_row_is_refused,
}
use cortex_rag.Migrations.Pipeline.Rows.{LegacyJob}
use cortex_rag.Tests.Data.{tenant}
use cortex_rag.Repo.Sql.{exists}
use cortex_rag.Repo.Sql.Laws.{AreDistinct}
use cortex_rag.Migrations.Schema.Undo.{is_closed}
use cortex_rag.Base.Str.{lstrip_dots}
use cortex_rag.Metadata.Column.{json_string, json_other, strings_of}
use cortex_rag.Migrations.Foundation
use mathlib.Core.List.{Mem}

abbrev title_column : Declaration
title_column = (text "knowledge_documents", text "title", varchar 1024, false)

abbrev of_version : Text × ForeignKey
of_version = (
  text "conversation_messages",
  record {
    column = text "conversation_id";
    target = text "conversations";
    on_delete = text "CASCADE";
  },
)

abbrev by_tenant : Index
by_tenant =
    plain_index (text "ix_conversations_tenant_id") (text "conversations") (text "tenant_id" ∷ [])

head_is_declared_example :
    (run upgrade_head empty_schema ≡ some migrated)
    × (Mem title_column (declarations migrated.tables)
        ↔ Mem title_column (declarations declared.tables))
    × (Mem of_version (references migrated.tables) ↔ Mem of_version (references declared.tables))
    × (Mem by_tenant migrated.indexes ↔ Mem by_tenant declared.indexes)
head_is_declared_example = head_is_declared title_column of_version by_tenant

abbrev after_first : Schema
after_first = elim (run Foundation.upgrade empty_schema) [ none ↦ empty_schema | some s ↦ s ]

first_runs : run Foundation.upgrade empty_schema ≡ some after_first
unfolding run apply Foundation.upgrade exists text_eq nat_eq
first_runs = refl

empty_is_closed : is_closed empty_schema ≡ true
empty_is_closed = refl

abbrev old_document : LegacyDocument
old_document = record {
  id = 1;
  tenant_id = tenant;
  collection_id = none;
  original_filename = text "a.txt";
  filename = text "1.txt";
  extension = text "txt";
  mime_type = text "text/plain";
  size = 2;
  checksum_sha256 = text "hi";
  storage_provider = text "local";
  storage_path = text "k";
  uploaded_by = none;
  status = text "uploaded";
  metadata = (text "author", json_string (text "me")) ∷ [];
  page_count = none;
  deleted_at = none;
  created_at = 3;
  updated_at = 4;
}

abbrev counted : ℕ → Uuid
counted n = 100 + n

one_id : AreDistinct (map (λ d. d.id) (old_document ∷ []))
unfolding exists
one_id = (refl, tt)

counted_injective : (i j : ℕ) → counted i ≡ counted j → i ≡ j
counted_injective i j e = omega arith

abbrev new_rows : List MigratedDocument
new_rows = migrated_from counted 0 (old_document ∷ [])

downgrade_rows-upgrade_rows_example :
    downgrade_rows (upgrade_rows counted (old_document ∷ [])).1 new_rows
    ≡ map restored (old_document ∷ [])
downgrade_rows-upgrade_rows_example =
    downgrade_rows-upgrade_rows counted counted_injective (old_document ∷ []) new_rows one_id
      (ap (λ r. r.0) (upgrade_rows_lem counted (old_document ∷ []) one_id))

abbrev new_row : MigratedDocument
new_row = migrated_with 100 old_document

read_upgraded_row_example :
    (doc_to_entity
        (λ s. s)
        (upgrade_row (λ s. s) (first_version_of 100 old_document ∷ []) new_row)
        none
      ≡ ok (record {
        id = 1;
        tenant_id = tenant;
        title = text "a.txt";
        source_type = from_extension (λ s. s) (text "txt");
        knowledge_space_id = none;
        current_version_id = some 100;
        status = uploaded;
        metadata = record empty_metadata { custom_properties = (text "author", text "me") ∷ [] };
        created_by = none;
        created_at = some 3;
        updated_at = some 4;
        deleted_at = none;
        active_version = none;
      }))
    × (downgrade_row (upgrade_row (λ s. s) (first_version_of 100 old_document ∷ []) new_row)
        ≡ new_row)
unfolding nat_eq lstrip_dots strings_of
read_upgraded_row_example =
    read_upgraded_row (λ s. s) (first_version_of 100 old_document ∷ []) new_row
      (first_version_of 100 old_document) uploaded none ((text "author", text "me") ∷ []) refl refl
      refl refl refl

-- A document whose metadata has a number.
abbrev loose_row : MigratedDocument
loose_row = record new_row { metadata = (text "pages", json_other (text "12")) ∷ [] }

loose_row_is_refused_example :
    is_ok (doc_to_entity (λ s. s) (upgrade_row (λ s. s) [] loose_row) none) ≡ false
loose_row_is_refused_example = loose_row_is_refused (λ s. s) [] loose_row none refl

abbrev old_job : LegacyJob
old_job = record {
  id = 5;
  document_id = 1;
  tenant_id = tenant;
  job_type = text "document_ingestion";
  status = text "failed";
  attempts = 3;
  error = some (text "no");
  payload = text "{}";
  created_at = 3;
  updated_at = 4;
}
