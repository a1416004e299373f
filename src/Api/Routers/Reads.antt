-- ===== src/Api/Routers/Reads.antt =====
-- Requests that only read.
use cortex_rag.Base.{ℕ, ◌≡◌, refl, Bool, true, false, Option, none, some, arith, Text}
use cortex_rag.World.{World, Action, Env}
use cortex_rag.Job.{Uuid}
use cortex_rag.Documents.View.{ListDocumentsInput, GetDocumentInput}
use cortex_rag.Documents.Manage.{get_document, list_documents}
use cortex_rag.Repo.Documents.Laws.{get_keeps}
use cortex_rag.Processing.Query.{get_processing_job, ListJobsInput, list_processing_jobs}
use cortex_rag.Settings.Groups.{Settings}
use cortex_rag.Api.Requests.{
  Request, upload_request, list_request, get_request, delete_request, update_request,
  list_jobs_request, get_job_request, chat_request, search_request, health_request, Body, Reply,
}
use cortex_rag.Api.Dependencies.{Libraries, Headers}
use cortex_rag.Api.Routers.{respond, admitted, serve}
use cortex_rag.Repo.Documents
use cortex_rag.Repo.Jobs

-- The GET requests.
abbrev pub is_read : Request → Bool
is_read (list_request _ _ _) = true
is_read (get_request _) = true
is_read (list_jobs_request _ _ _ _) = true
is_read (get_job_request _) = true
is_read health_request = true
is_read _ = false

list_documents_keeps :
    (env : Env) (input : ListDocumentsInput) (w : World) → (list_documents env input w).1 ≡ w
unfolding list_documents Documents.list_documents
list_documents_keeps env input w = ground arith

get_document_keeps :
    (env : Env) (input : GetDocumentInput) (w : World) → (get_document env input w).1 ≡ w
unfolding get_document
get_document_keeps env input w = ground (arith, get_keeps env input.tenant_id input.document_id w)

list_processing_jobs_keeps :
    (input : ListJobsInput) (w : World) → (list_processing_jobs input w).1 ≡ w
unfolding list_processing_jobs Jobs.list_jobs
list_processing_jobs_keeps input w = ground arith

get_processing_job_keeps :
    (env : Env) (tenant_id : Text) (job_id : Uuid) (w : World)
    → (get_processing_job env tenant_id job_id w).1 ≡ w
unfolding get_processing_job Jobs.get
get_processing_job_keeps env tenant_id job_id w = ground arith

respond_keeps :
    {A : Type 0} (status : ℕ) (body : A → Body) (m : Action A) (w : World)
    → (m w).1 ≡ w
    → (respond status body m w).1 ≡ w
unfolding respond
respond_keeps status body m w h = ground arith

admitted_keeps :
    {A : Type 0} (input : Option A) (f : A → World → Reply × World) (w : World)
    → ((a : A) → (f a w).1 ≡ w)
    → (admitted input f w).1 ≡ w
unfolding admitted
admitted_keeps none f w h = refl
admitted_keeps (some a) f w h = h a

module _ (lib : Libraries) (settings : Settings) (headers : Headers) (w : World) where
  -- A GET request changes nothing, whatever it is answered: no table, no file, no message and no event,
  -- and no UUID and no reading of the clock is taken.
  pub reads_change_nothing :
      (request : Request) → is_read request ≡ true → (serve lib settings headers request w).1 ≡ w
  unfolding serve
  reads_change_nothing (list_request space limit offset) read =
      admitted_keeps _ _ w (λ p. respond_keeps 200 _ _ w (list_documents_keeps _ _ w))
  reads_change_nothing (get_request document_id) read =
      respond_keeps 200 _ _ w (get_document_keeps _ _ w)
  reads_change_nothing (list_jobs_request document_id status limit offset) read =
      admitted_keeps _ _ w (λ q. respond_keeps 200 _ _ w (list_processing_jobs_keeps _ w))
  reads_change_nothing (get_job_request job_id) read =
      respond_keeps 200 _ _ w (get_processing_job_keeps _ _ _ w)
  reads_change_nothing health_request read = refl
  reads_change_nothing (upload_request form) read = ground arith
  reads_change_nothing (delete_request document_id) read = ground arith
  reads_change_nothing (update_request document_id payload) read = ground arith
  reads_change_nothing (chat_request payload) read = ground arith
  reads_change_nothing (search_request payload) read = ground arith
