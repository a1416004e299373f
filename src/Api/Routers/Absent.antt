-- ===== src/Api/Routers/Absent.antt =====
-- Requests for documents that are not there, or not any more, and uploads of content that is there.
use cortex_rag.Base.{
  ℕ, ◌≤◌, ◌≡◌, refl, ap, ◌∙◌, none, some, [], arith, length, select, select_first, Text,
}
use cortex_rag.Exec.{ok, err}
use cortex_rag.World.{World, Action, Env}
use cortex_rag.Job.{Uuid}
use cortex_rag.Document.{KnowledgeDocument}
use cortex_rag.Documents.View.{AddDocumentVersionInput}
use cortex_rag.Documents.Manage.{get_document, delete_document, update_document_metadata}
use cortex_rag.Documents.Manage.Absent.{absent_is_refused}
use cortex_rag.Documents.Manage.Deleted.{deleted_is_gone}
use cortex_rag.Documents.Versions.{document_not_found}
use cortex_rag.Repo.Documents.{by_id, is_live}
use cortex_rag.Settings.Groups.{Settings}
use cortex_rag.Api.Errors.{handle}
use cortex_rag.Api.Requests.{
  UpdateDocumentRequest, get_request, delete_request, update_request, Body, status_of,
}
use cortex_rag.Api.Dependencies.{Libraries, Headers, get_tenant_id, services}
use cortex_rag.Api.Routers.{valid_update, key_of, update_input, respond, admitted, serve}
use cortex_rag.Repo.Documents

module _ (lib : Libraries) (settings : Settings) (headers : Headers) (document_id : Uuid) where
  abbrev tenant_id : Text
  tenant_id = get_tenant_id headers

  abbrev env : Env
  env = services lib settings

  -- The parts of `absent_is_refused` that a router reaches.
  refused_where_absent :
      (w : World) (changes : UpdateDocumentRequest)
      → select_first (is_live tenant_id document_id) w.documents ≡ none
      → (get_document env (key_of headers document_id) w
          ≡ (err (document_not_found env document_id), w))
        × (delete_document env (key_of headers document_id) w
            ≡ (err (document_not_found env document_id), w))
        × (update_document_metadata env (update_input headers document_id changes) w
            ≡ (err (document_not_found env document_id), w))
  refused_where_absent w changes absent =
      let new : AddDocumentVersionInput = record {
        tenant_id = tenant_id;
        document_id = document_id;
        original_filename = [];
        content = [];
        content_type = [];
        uploaded_by = none;
      } in
      let (got, deleted_it, updated, added, listed, processed_it) =
        absent_is_refused env w tenant_id document_id absent settings.upload new
          (update_input headers document_id changes) refl refl refl refl in
      (got, deleted_it, updated)

  respond_refused :
      {A : Type 0} (status : ℕ) (body : A → Body) (m : Action A) (w : World)
      → m w ≡ (err (document_not_found env document_id), w)
      → (status_of (respond status body m w).0 ≡ 404) × ((respond status body m w).1 ≡ w)
  unfolding respond handle
  respond_refused status body m w h = ground (arith, h)

  respond_returned :
      {A : Type 0} (status : ℕ) (body : A → Body) (m : Action A) (w : World) {a : A}
      → (m w).0 ≡ ok a
      → (status_of (respond status body m w).0 ≡ status) × ((respond status body m w).1 ≡ (m w).1)
  unfolding respond
  respond_returned status body m w h = ground (arith, h)

  -- Where no live document of the request's tenant has the id, be it that there is none, that it is
  -- another tenant's or that it was deleted, GET, DELETE, and PATCH with an admitted body are answered
  -- by 404 and change nothing.
  pub absent_is_404 :
      (w : World) (payload valid : UpdateDocumentRequest)
      → select_first (is_live tenant_id document_id) w.documents ≡ none
      → valid_update lib.base.lower payload ≡ some valid
      → (status_of (serve lib settings headers (get_request document_id) w).0 ≡ 404)
        × ((serve lib settings headers (get_request document_id) w).1 ≡ w)
        × (status_of (serve lib settings headers (delete_request document_id) w).0 ≡ 404)
        × ((serve lib settings headers (delete_request document_id) w).1 ≡ w)
        × (status_of (serve lib settings headers (update_request document_id payload) w).0 ≡ 404)
        × ((serve lib settings headers (update_request document_id payload) w).1 ≡ w)
  unfolding serve admitted
  absent_is_404 w payload valid absent admits =
      let (got, deleted_it, updated) = refused_where_absent w valid absent in
      let (s, t) = respond_refused 200 _ _ w got in
      let (s', t') = respond_refused 204 _ _ w deleted_it in
      let (s'', t'') = respond_refused 200 _ _ w updated in
      (s, t, s', t', rw (admits, serve) s'', rw (admits, serve) t'')

  abbrev after_delete : World → World
  after_delete w = (serve lib settings headers (delete_request document_id) w).1

  served_deletion :
      (w : World)
      → (delete_document env (key_of headers document_id) w).0 ≡ ok tt
      → (status_of (serve lib settings headers (delete_request document_id) w).0 ≡ 204)
        × (after_delete w ≡ (delete_document env (key_of headers document_id) w).1)
  unfolding serve
  served_deletion w returned = respond_returned 204 _ _ w returned

  abbrev no_change : UpdateDocumentRequest
  no_change = record { metadata = none; title = none; knowledge_space_id = none }

  -- Where at most one row has the id and the request's tenant gets the document, DELETE is answered by
  -- 204, and a GET or a second DELETE of it right after that by 404, changing nothing.
  pub deleted_is_404 :
      (w : World) (d : KnowledgeDocument)
      → length (select (by_id document_id) w.documents) ≤ 1
      → (Documents.get env tenant_id document_id w).0 ≡ ok (some d)
      → (status_of (serve lib settings headers (delete_request document_id) w).0 ≡ 204)
        × (status_of (serve lib settings headers (get_request document_id) (after_delete w)).0
            ≡ 404)
        × ((serve lib settings headers (get_request document_id) (after_delete w)).1
            ≡ after_delete w)
        × (status_of (serve lib settings headers (delete_request document_id) (after_delete w)).0
            ≡ 404)
        × ((serve lib settings headers (delete_request document_id) (after_delete w)).1
            ≡ after_delete w)
  deleted_is_404 w d one read =
      let (returned, gone, vers, files) = deleted_is_gone env tenant_id document_id w d one read in
      let (replied_204, kept) = served_deletion w returned in
      let absent = ap (λ v. select_first (is_live tenant_id document_id) v.documents) kept ∙ gone in
      let (got, g, again, a, u, v) =
        absent_is_404 (after_delete w) no_change no_change absent refl in
      (replied_204, got, g, again, a)
