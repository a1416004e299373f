-- ===== src/Api/Routers/Uploads.antt =====
-- Uploads over HTTP.
use cortex_rag.Base.{◌≤◌, ◌≡◌, refl, sym, ap, ◌∙◌, false, some, arith}
use cortex_rag.Exec.{
  domain, value_error, not_implemented, integrity_error, external_error, Result, ok, err, is_ok,
}
use cortex_rag.World.{Database, World, Action}
use cortex_rag.Session.{settle}
use cortex_rag.Job.{Uuid, Time}
use cortex_rag.Document.{KnowledgeDocument}
use cortex_rag.Settings.Groups.{Settings}
use cortex_rag.Documents.View.{DocumentView, document_view}
use cortex_rag.Documents.Upload.Duplicates.{duplicate_is_refused}
use cortex_rag.Documents.Upload.Found.{uploaded_is_found}
use cortex_rag.Documents.Manage.{get_document}
use cortex_rag.Api.Errors.{handle}
use cortex_rag.Api.Requests.{
  UploadForm, upload_request, get_request, Body, document_body, replied, status_of,
}
use cortex_rag.Api.Dependencies.{
  Libraries, Headers, get_tenant_id, services, get_upload_document_use_case,
}
use cortex_rag.Api.Routers.{upload_input, answer, respond, serve}
use cortex_rag.Repo.Documents

-- The view of a document as it is read back: with the server's times.
abbrev pub dated : Time → DocumentView → DocumentView
dated now view = record view { created_at = some now; updated_at = some now }

module _ (lib : Libraries) (settings : Settings) where
  abbrev run_upload : Headers → UploadForm → Action DocumentView
  run_upload headers form = get_upload_document_use_case lib settings (upload_input headers form)

  answer_created :
      {A : Type 0} (body : A → Body) (before : Database) (r : Result A × World)
      → status_of (answer 201 body (settle before r)).0 ≡ 201
      → (a : A) × (r.0 ≡ ok a)
        × ((answer 201 body (settle before r)).1 ≡ r.1)
        × ((answer 201 body (settle before r)).0 ≡ replied 201 (body a))
  unfolding handle
  answer_created body before (ok a, v) created = (a, refl, refl, refl)
  answer_created body before (err (domain c m), v) created = ground arith
  answer_created body before (err (value_error m), v) created = ground arith
  answer_created body before (err not_implemented, v) created = ground arith
  answer_created body before (err (integrity_error m), v) created = ground arith
  answer_created body before (err (external_error m), v) created = ground arith

  respond_raised :
      {A : Type 0} (body : A → Body) (m : Action A) (w : World)
      → is_ok (m w).0 ≡ false
      → (m w).1 ≡ w
      → (400 ≤ status_of (respond 201 body m w).0) × ((respond 201 body m w).1 ≡ w)
  unfolding respond handle
  respond_raised body m w raised same = ground arith

  -- Once an upload was answered by 201, an upload under the same tenant of content with the same
  -- SHA-256 is answered by 400 or above and changes nothing, whatever its name, type and user are.
  pub second_upload_is_refused :
      (headers other : Headers) (form again : UploadForm) (w : World)
      → status_of (serve lib settings headers (upload_request form) w).0 ≡ 201
      → get_tenant_id other ≡ get_tenant_id headers
      → lib.base.sha256_hex again.content ≡ lib.base.sha256_hex form.content
      → let after = (serve lib settings headers (upload_request form) w).1 in
        (400 ≤ status_of (serve lib settings other (upload_request again) after).0)
        × ((serve lib settings other (upload_request again) after).1 ≡ after)
  unfolding serve respond services
  second_upload_is_refused headers other form again w created same_tenant same_sum =
      let (view, returned, kept, reply) =
        answer_created document_body w.db (run_upload headers form w) created in
      let (raised, same) =
        duplicate_is_refused (services lib settings) settings.upload settings.processing
          (upload_input headers form) w returned (upload_input other again) same_tenant same_sum in
      rw kept (
        respond_raised document_body (run_upload other again) (run_upload headers form w).1 raised
          same)

  found_is_served :
      (headers : Headers) (i : Uuid) (w : World) (d : KnowledgeDocument)
      → Documents.get (services lib settings) (get_tenant_id headers) i w ≡ (ok (some d), w)
      → serve lib settings headers (get_request i) w
        ≡ (replied 200 (document_body (document_view d)), w)
  unfolding serve respond get_document
  found_is_served headers i w d found = rw found refl

  -- Once an upload was answered by 201, GET of the id in that answer, under the same tenant, is answered
  -- by 200 and the same view but for the two times, which are the server's, and changes nothing.
  pub uploaded_is_served :
      (headers other : Headers) (form : UploadForm) (w : World)
      → status_of (serve lib settings headers (upload_request form) w).0 ≡ 201
      → get_tenant_id other ≡ get_tenant_id headers
      → let after = (serve lib settings headers (upload_request form) w).1 in
        (view : DocumentView) × ((serve lib settings headers (upload_request form) w).0
          ≡ replied 201 (document_body view))
        × (serve lib settings other (get_request view.id) after
            ≡ (replied 200 (document_body (dated w.server_now view)), after))
  unfolding serve respond document_view
  uploaded_is_served headers other form w created same_tenant =
      let (view, returned, kept, reply) =
        answer_created document_body w.db (run_upload headers form w) created in
      let (seen, found) =
        uploaded_is_found (services lib settings) settings.upload settings.processing
          (upload_input headers form) w returned in
      let ran = (run_upload headers form w).1 in
      let same = ap (dated w.server_now) (sym seen) in
      let served =
        found_is_served other view.id ran _
          (ap (λ t. Documents.get (services lib settings) t view.id ran) same_tenant ∙ found) in
      (view, reply, rw kept (served ∙ ap (λ v. (replied 200 (document_body v), ran)) same))
