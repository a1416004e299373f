-- ===== src/Tests/Documents.antt =====
-- Uploads, versions and deletions.
use cortex_rag.Base.{
  ◌≤◌, ◌≡◌, refl, true, none, some, [], ◌∷◌, arith, nat_eq, length, select, Text, text, text_eq,
}
use cortex_rag.Base.Str.{contains, has_char, after_last_dot}
use cortex_rag.Exec.{Result, ok, err}
use cortex_rag.Status.{document_status_from, storage_provider_from}
use cortex_rag.SourceType.{source_type_from}
use cortex_rag.Metadata.{
  strip_all, has_duplicates, any_blank, validate_language, validate_tags, validate_keywords,
  validate_metadata,
}
use cortex_rag.Document.{
  KnowledgeDocumentVersion, KnowledgeDocument, DocumentRow, VersionRow, version_to_entity,
  version_to_model, doc_to_entity, doc_to_model,
}
use cortex_rag.World.{JobRow, World, publish, draw_uuid, read_clock, save_bytes, enqueue_job}
use cortex_rag.Validation.{validate_upload}
use cortex_rag.Repo.Sql.{exists, update_first, insert_desc, sort_desc, traverse}
use cortex_rag.Repo.Sql.Laws.{IsDescending}
use cortex_rag.Repo.Documents.{by_id, is_listed}
use cortex_rag.Repo.Documents.Listing.{instant, is_shown, list_documents_page}
use cortex_rag.Repo.Sql.Pages.{all}
use cortex_rag.Processing.Create.{create_processing_job}
use cortex_rag.Documents.View.{
  DocumentVersionView, version_view, DocumentView, document_view, UploadDocumentInput,
  AddDocumentVersionInput, UpdateDocumentMetadataInput, GetDocumentInput,
}
use cortex_rag.Documents.Upload.{upload_document}
use cortex_rag.Documents.Upload.Effect.{uploaded_key, uploaded_version, uploaded_document, upload}
use cortex_rag.Documents.Upload.Found.{uploaded_is_found}
use cortex_rag.Documents.Versions.{
  max_number, next_number, document_not_found, add_document_version, list_document_versions,
}
use cortex_rag.Documents.Versions.Numbers.{IsNext}
use cortex_rag.Documents.Versions.Effect.{added_version}
use cortex_rag.Documents.Manage.{get_document, delete_document, update_document_metadata}
use cortex_rag.Documents.Manage.Absent.{absent_is_refused}
use cortex_rag.Documents.Manage.Deleted.{deleted_is_still_searched}
use cortex_rag.Documents.Process.{document_not_found_for, process_document}
use cortex_rag.Chat.Answer.{semantic_search}
use cortex_rag.Tests.Data.{
  tenant, env, empty_world, upload_settings, processing_settings, note, the_version, the_document,
  stocked,
}
use cortex_rag.Metadata.Column.{strings_of, json_strings, model_validate, model_dump}
use cortex_rag.Documents.Upload.Rows.{IsUpload, uploaded_rows}
use cortex_rag.Documents.Versions.Rows.{HasUpload, points_at, added_row}
use cortex_rag.Repo.Documents
use cortex_rag.Repo.Jobs

abbrev new_version : KnowledgeDocumentVersion
new_version = uploaded_version env upload_settings processing_settings note empty_world

abbrev new_doc : KnowledgeDocument
new_doc = uploaded_document env upload_settings processing_settings note empty_world

abbrev new_key : Text
new_key = uploaded_key env upload_settings processing_settings note empty_world

abbrev uploading : Result DocumentView × World
uploading = upload env upload_settings processing_settings note empty_world

upload_ok : uploading.0 ≡ ok (document_view new_doc)
unfolding upload_document validate_upload has_char contains after_last_dot Documents.get_by_checksum
    Documents.add exists draw_uuid read_clock save_bytes publish create_processing_job
    Jobs.get_active_by_type Jobs.add enqueue_job text_eq nat_eq
upload_ok = refl

uploaded_rows_example :
    (d : DocumentRow) × (v : VersionRow) × (j : JobRow) × (uploading.1.documents ≡ d ∷ [])
    × (uploading.1.versions ≡ v ∷ [])
    × (uploading.1.jobs ≡ j ∷ [])
    × (uploading.1.saved ≡ (v.storage_path, text "hi") ∷ [])
    × (uploading.1.enqueued ≡ (tenant, j.id) ∷ [])
    × IsUpload env upload_settings processing_settings note empty_world d v j
    × ((document_view new_doc).id ≡ d.id)
    × ((document_view new_doc).current_version_id ≡ some v.id)
uploaded_rows_example =
    uploaded_rows env upload_settings processing_settings note empty_world upload_ok

uploaded_is_found_example :
    (document_view new_doc ≡ document_view new_doc)
    × (Documents.get env tenant (document_view new_doc).id uploading.1 ≡ (
      ok (
          some (record new_doc {
            created_at = some 7;
            updated_at = some 7;
            active_version = some (record new_version { created_at = some 7 });
          })),
      uploading.1,
    ))
uploaded_is_found_example =
    uploaded_is_found env upload_settings processing_settings note empty_world upload_ok

-- The same content under another name.
abbrev again : UploadDocumentInput
again = record note { original_filename = text "b.txt" }

stocked_read : (Documents.get env tenant 1 stocked).0 ≡ ok (some the_document)
unfolding Documents.get Documents.with_version Documents.load_version version_to_model
    version_to_entity doc_to_model doc_to_entity storage_provider_from document_status_from
    source_type_from model_validate model_dump strings_of json_strings validate_metadata
    validate_language validate_tags validate_keywords strip_all any_blank has_duplicates text_eq
    nat_eq
stocked_read = refl

stocked_listed : (Documents.list_versions 1 stocked).0 ≡ ok (the_version ∷ [])
unfolding Documents.list_versions sort_desc insert_desc traverse version_to_model version_to_entity
    storage_provider_from text_eq nat_eq
stocked_listed = refl

abbrev second : AddDocumentVersionInput
second = record {
  tenant_id = tenant;
  document_id = 1;
  original_filename = text "a.txt";
  content = text "ho";
  content_type = text "text/plain";
  uploaded_by = none;
}

abbrev second_version : KnowledgeDocumentVersion
second_version =
    added_version env upload_settings second stocked the_document (the_version ∷ []) stocked_read
      stocked_listed

abbrev adding : Result DocumentVersionView × World
adding = add_document_version env upload_settings second stocked

add_ok : adding.0 ≡ ok (version_view second_version)
unfolding add_document_version validate_upload has_char contains after_last_dot Documents.get
    Documents.with_version Documents.load_version Documents.list_versions Documents.add_version
    exists update_first sort_desc insert_desc traverse version_to_model version_to_entity
    doc_to_model doc_to_entity storage_provider_from document_status_from source_type_from
    model_validate model_dump strings_of json_strings validate_metadata validate_language
    validate_tags validate_keywords strip_all any_blank has_duplicates draw_uuid read_clock
    save_bytes publish next_number max_number text_eq nat_eq
add_ok = refl

added_row_example :
    (v : VersionRow) × (adding.1.versions ≡ version_to_model 7 the_version ∷ v ∷ [])
    × HasUpload env upload_settings second stocked the_document
        (the_version ∷ [])
        stocked_read
        stocked_listed
        v
    × IsNext v.version_number (the_version ∷ [])
    × (adding.1.saved ≡ (text "k", text "hi") ∷ (v.storage_path, text "ho") ∷ [])
    × (adding.1.documents
        ≡ update_first
            (by_id 1)
            (points_at env upload_settings second stocked the_document
              (the_version ∷ [])
              stocked_read
              stocked_listed
              v)
            stocked.documents)
    × (adding.1.jobs ≡ [])
    × ((version_view second_version).id ≡ v.id)
    × ((version_view second_version).version_number ≡ v.version_number)
added_row_example =
    added_row env upload_settings second stocked the_document (the_version ∷ []) stocked_read
      stocked_listed add_ok

abbrev key : GetDocumentInput
key = record { tenant_id = tenant; document_id = 1 }

one_row : length (select (by_id 1) stocked.documents) ≤ 1
unfolding doc_to_model nat_eq
one_row = omega arith

deleted_is_still_searched_example :
    (semantic_search env tenant (text "hi") 3 (delete_document env key stocked).1).0
    ≡ (semantic_search env tenant (text "hi") 3 stocked).0
deleted_is_still_searched_example =
    deleted_is_still_searched env tenant 1 stocked the_document stocked_read tenant (text "hi") 3

abbrev no_changes : UpdateDocumentMetadataInput
no_changes = record {
  tenant_id = tenant;
  document_id = 1;
  metadata = none;
  title = none;
  knowledge_space_id = none;
}

absent_is_refused_example :
    let refused = document_not_found env 1 in
    (get_document env key empty_world ≡ (err refused, empty_world))
    × (delete_document env key empty_world ≡ (err refused, empty_world))
    × (update_document_metadata env no_changes empty_world ≡ (err refused, empty_world))
    × (add_document_version env upload_settings second empty_world ≡ (err refused, empty_world))
    × (list_document_versions env key empty_world ≡ (err refused, empty_world))
    × (process_document env tenant 1 empty_world
        ≡ (err (document_not_found_for env 1 tenant), empty_world))
absent_is_refused_example =
    absent_is_refused env empty_world tenant 1 refl upload_settings second no_changes refl refl refl
      refl

stocked_page : (Documents.list_documents env tenant none 10 0 stocked).0 ≡ ok (the_document ∷ [], 1)
unfolding Documents.list_documents sort_desc insert_desc traverse exists version_to_model
    version_to_entity doc_to_model doc_to_entity storage_provider_from document_status_from
    source_type_from model_validate model_dump strings_of json_strings validate_metadata
    validate_language validate_tags validate_keywords strip_all any_blank has_duplicates text_eq
    nat_eq
stocked_page = refl

list_documents_page_example :
    (all (is_shown tenant) (the_document ∷ []) ≡ true)
    × (1 ≤ 10)
    × (1 ≤ 1)
    × IsDescending (λ d. instant d.created_at) (the_document ∷ [])
    × (1 ≡ length (select (is_listed tenant none) stocked.documents))
list_documents_page_example =
    list_documents_page env tenant none 10 0 stocked 1 (the_document ∷ []) stocked_page
