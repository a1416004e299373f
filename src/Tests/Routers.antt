-- ===== src/Tests/Routers.antt =====
-- Requests to a small deployment.
use cortex_rag.Base.{
  ◌≤◌, ◌≡◌, refl, none, some, [], arith, nat_eq, length, select, select_first, pos, text, text_eq,
}
use cortex_rag.Exec.{external_error, ok, err}
use cortex_rag.Status.{document_status_from, storage_provider_from}
use cortex_rag.Metadata.{
  strip_all, has_duplicates, any_blank, validate_language, validate_tags, validate_keywords,
  validate_metadata,
}
use cortex_rag.Document.{version_to_entity, version_to_model, doc_to_entity, doc_to_model}
use cortex_rag.SourceType.{source_type_from}
use cortex_rag.World.{publish, draw_uuid, read_clock, save_bytes, enqueue_job}
use cortex_rag.Settings.Groups.{Settings, default_settings}
use cortex_rag.Adapters.Gemini.{api_error}
use cortex_rag.Documents.View.{DocumentView}
use cortex_rag.Documents.Upload.{upload_document}
use cortex_rag.Processing.Create.{create_processing_job}
use cortex_rag.Repo.Sql.{exists}
use cortex_rag.Validation.{validate_upload}
use cortex_rag.Base.Str.{contains, has_char, after_last_dot}
use cortex_rag.Api.Requests.{
  UpdateDocumentRequest, UploadForm, upload_request, list_request, get_request, delete_request,
  update_request, document_body, replied, status_of,
}
use cortex_rag.Api.Dependencies.{Libraries, Headers, services}
use cortex_rag.Api.Routers.{respond, serve}
use cortex_rag.Api.Routers.Failures.{failed_request_keeps_tables}
use cortex_rag.Api.Routers.Reads.{reads_change_nothing}
use cortex_rag.Api.Routers.Absent.{absent_is_404, deleted_is_404}
use cortex_rag.Api.Routers.Uploads.{dated, second_upload_is_refused, uploaded_is_served}
use cortex_rag.Tests.Data.{tenant, env, empty_world, upload_settings, the_document, stocked}
use cortex_rag.Repo.Documents.{by_id, is_live}
use cortex_rag.Metadata.Column.{strings_of, json_strings, model_validate, model_dump}
use cortex_rag.Repo.Documents
use cortex_rag.Repo.Jobs

abbrev lib : Libraries
lib = record {
  base = env;
  save_file = λ _ _ key _. ok key;
  load_file = λ _ _ _. err (external_error (text "no such file"));
  load_model = λ _. err (external_error (text "no such model"));
  generate_content = λ _ _ _ _. api_error 429 (text "quota");
  upsert_into = λ _ _ _. ok tt;
  search_in = λ _ _ _ _ _. ok [];
  open_pdf = λ _. err (external_error (text "no PDF"));
  split_text = λ _ _. [];
  enqueue_at = λ _ _ _ _ _. ok tt;
}

abbrev settings : Settings
settings = record default_settings { upload = upload_settings }

abbrev headers : Headers
headers = record { x_tenant_id = some tenant; x_user_id = none }

abbrev form : UploadForm
form = record {
  filename = some (text "a.txt");
  content = text "hi";
  content_type = some (text "text/plain");
  knowledge_space_id = none;
}

abbrev form_again : UploadForm
form_again = record form { filename = some (text "b.txt") }

abbrev nothing : UpdateDocumentRequest
nothing = record { metadata = none; title = none; knowledge_space_id = none }

absent : select_first (is_live tenant 1) empty_world.documents ≡ none
absent = refl

missing_is_404 : status_of (serve lib settings headers (get_request 1) empty_world).0 ≡ 404
missing_is_404 = (absent_is_404 lib settings headers 1 empty_world nothing nothing absent refl).0

above_400 : 400 ≤ status_of (serve lib settings headers (get_request 1) empty_world).0
above_400 = rw missing_is_404 (omega arith)

failed_request_keeps_tables_example :
    (serve lib settings headers (get_request 1) empty_world).1.db ≡ empty_world.db
failed_request_keeps_tables_example =
    failed_request_keeps_tables lib settings headers empty_world (get_request 1) above_400

reads_change_nothing_example :
    (serve lib settings headers (list_request none (some (pos 5)) none) stocked).1 ≡ stocked
reads_change_nothing_example =
    reads_change_nothing lib settings headers stocked (list_request none (some (pos 5)) none) refl

absent_is_404_example :
    (status_of (serve lib settings headers (get_request 1) empty_world).0 ≡ 404)
    × ((serve lib settings headers (get_request 1) empty_world).1 ≡ empty_world)
    × (status_of (serve lib settings headers (delete_request 1) empty_world).0 ≡ 404)
    × ((serve lib settings headers (delete_request 1) empty_world).1 ≡ empty_world)
    × (status_of (serve lib settings headers (update_request 1 nothing) empty_world).0 ≡ 404)
    × ((serve lib settings headers (update_request 1 nothing) empty_world).1 ≡ empty_world)
absent_is_404_example = absent_is_404 lib settings headers 1 empty_world nothing nothing absent refl

one_row : length (select (by_id 1) stocked.documents) ≤ 1
unfolding nat_eq doc_to_model
one_row = omega arith

stocked_read : (Documents.get (services lib settings) tenant 1 stocked).0 ≡ ok (some the_document)
unfolding services Documents.get Documents.with_version Documents.load_version version_to_model
    version_to_entity doc_to_model doc_to_entity storage_provider_from document_status_from
    source_type_from model_validate model_dump strings_of json_strings validate_metadata
    validate_language validate_tags validate_keywords strip_all any_blank has_duplicates text_eq
    nat_eq
stocked_read = refl

deleted_is_404_example :
    let after = (serve lib settings headers (delete_request 1) stocked).1 in
    (status_of (serve lib settings headers (delete_request 1) stocked).0 ≡ 204)
    × (status_of (serve lib settings headers (get_request 1) after).0 ≡ 404)
    × ((serve lib settings headers (get_request 1) after).1 ≡ after)
    × (status_of (serve lib settings headers (delete_request 1) after).0 ≡ 404)
    × ((serve lib settings headers (delete_request 1) after).1 ≡ after)
deleted_is_404_example =
    deleted_is_404 lib settings headers 1 stocked the_document one_row stocked_read

created : status_of (serve lib settings headers (upload_request form) empty_world).0 ≡ 201
unfolding serve respond services upload_document validate_upload has_char contains after_last_dot
    Documents.get_by_checksum Documents.add exists draw_uuid read_clock save_bytes publish
    create_processing_job Jobs.get_active_by_type Jobs.add enqueue_job text_eq nat_eq
created = refl

second_upload_is_refused_example :
    let after = (serve lib settings headers (upload_request form) empty_world).1 in
    (400 ≤ status_of (serve lib settings headers (upload_request form_again) after).0)
    × ((serve lib settings headers (upload_request form_again) after).1 ≡ after)
second_upload_is_refused_example =
    second_upload_is_refused lib settings headers headers form form_again empty_world created refl
      refl

uploaded_is_served_example :
    let after = (serve lib settings headers (upload_request form) empty_world).1 in
    (view : DocumentView) × ((serve lib settings headers (upload_request form) empty_world).0
      ≡ replied 201 (document_body view))
    × (serve lib settings headers (get_request view.id) after
        ≡ (replied 200 (document_body (dated 7 view)), after))
uploaded_is_served_example =
    uploaded_is_served lib settings headers headers form empty_world created refl
