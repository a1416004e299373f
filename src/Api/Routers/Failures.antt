-- ===== src/Api/Routers/Failures.antt =====
-- Requests that fail, and requests that only read.
use cortex_rag.Base.{ℕ, ◌≤◌, ◌<◌, ◌≡◌, refl, Option, none, some, arith}
use cortex_rag.World.{World, Action}
use cortex_rag.Settings.Groups.{Settings}
use cortex_rag.Api.Requests.{
  Request, upload_request, list_request, get_request, delete_request, update_request,
  list_jobs_request, get_job_request, chat_request, search_request, health_request, Body, Reply,
  status_of, positive_up_to, both, page_of, nonempty,
}
use cortex_rag.Api.Dependencies.{Libraries, Headers}
use cortex_rag.Api.Routers.{status_filter, valid_update, respond, admitted, serve}

failed_response :
    {A : Type 0} (status : ℕ) (body : A → Body) (m : Action A) (w : World)
    → status < 400
    → 400 ≤ status_of (respond status body m w).0
    → (respond status body m w).1.db ≡ w.db
unfolding respond
failed_response status body m w below above = ground arith

admitted_or_not :
    {A : Type 0} (input : Option A) (f : A → World → Reply × World) (w : World)
    → ((a : A) → 400 ≤ status_of (f a w).0 → (f a w).1.db ≡ w.db)
    → 400 ≤ status_of (admitted input f w).0
    → (admitted input f w).1.db ≡ w.db
unfolding admitted
admitted_or_not none f w h above = refl
admitted_or_not (some a) f w h above = h a above

module _ (lib : Libraries) (settings : Settings) (headers : Headers) (w : World) where
  -- A request that is answered by a status of 400 or above has changed no table, whatever it was and
  -- whatever was raised.
  pub failed_request_keeps_tables :
      (request : Request)
      → 400 ≤ status_of (serve lib settings headers request w).0
      → (serve lib settings headers request w).1.db ≡ w.db
  unfolding serve
  failed_request_keeps_tables (upload_request form) above =
      failed_response 201 _ _ w (omega arith) above
  failed_request_keeps_tables (list_request space limit offset) above =
      admitted_or_not (page_of limit offset) _ w (λ p. failed_response 200 _ _ w (omega arith))
        above
  failed_request_keeps_tables (get_request document_id) above =
      failed_response 200 _ _ w (omega arith) above
  failed_request_keeps_tables (delete_request document_id) above =
      failed_response 204 _ _ w (omega arith) above
  failed_request_keeps_tables (update_request document_id payload) above =
      admitted_or_not (valid_update lib.base.lower payload) _ w
        (λ p. failed_response 200 _ _ w (omega arith)) above
  failed_request_keeps_tables (list_jobs_request document_id status limit offset) above =
      admitted_or_not (both (status_filter status) (page_of limit offset)) _ w
        (λ p. failed_response 200 _ _ w (omega arith)) above
  failed_request_keeps_tables (get_job_request job_id) above =
      failed_response 200 _ _ w (omega arith) above
  failed_request_keeps_tables (chat_request payload) above =
      admitted_or_not (both (nonempty payload.question) (positive_up_to 50 5 payload.top_k)) _ w
        (λ p. failed_response 200 _ _ w (omega arith)) above
  failed_request_keeps_tables (search_request payload) above =
      admitted_or_not (both (nonempty payload.query) (positive_up_to 100 10 payload.top_k)) _ w
        (λ p. failed_response 200 _ _ w (omega arith)) above
  failed_request_keeps_tables health_request above = refl
