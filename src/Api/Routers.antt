-- ===== src/Api/Routers.antt =====
-- The routers (app/api/v1/routers): each handler makes the use case's input of its request, runs the
-- use case in the request's session, and makes the reply of what it returns or raises.
pub mod Failures
pub mod Uploads
pub mod Reads
pub mod Absent
use cortex_rag.Base.{ℕ, Option, none, some, List, map, if◌then◌else◌, Text, text}
use cortex_rag.Exec.{Result, ok, err}
use cortex_rag.World.{World, Action}
use cortex_rag.Session.{in_session}
use cortex_rag.Status.{ProcessingJobStatus, job_status_from}
use cortex_rag.Job.{Uuid}
use cortex_rag.Metadata.{validate_metadata}
use cortex_rag.Chat.Answer.{SearchHit, AnswerQuestionInput, AnswerQuestionOutput}
use cortex_rag.Documents.View.{
  UploadDocumentInput, UpdateDocumentMetadataInput, ListDocumentsInput, GetDocumentInput,
}
use cortex_rag.Processing.Query.{ListJobsInput}
use cortex_rag.Settings.Groups.{Settings}
use cortex_rag.Api.Errors.{handle}
use cortex_rag.Api.Requests.{
  UpdateDocumentRequest, ChatRequest, UploadForm, Request, upload_request, list_request,
  get_request, delete_request, update_request, list_jobs_request, get_job_request, chat_request,
  search_request, health_request, ChatResponse, SearchResponse, HealthResponse, Body, no_body,
  document_body, documents_body, job_body, jobs_body, chat_body, search_body, health_body, Reply,
  replied, refused, unprocessable, positive_up_to, both, page_of, nonempty,
}
use cortex_rag.Api.Dependencies.{
  Libraries, Headers, get_tenant_id, get_uploaded_by, get_upload_document_use_case,
  get_get_document_use_case, get_list_documents_use_case, get_delete_document_use_case,
  get_update_document_metadata_use_case, get_list_processing_jobs_use_case,
  get_get_processing_job_use_case, get_answer_question_use_case, get_semantic_search_use_case,
}
use cortex_rag.Base.Str.{is_empty}

abbrev pub optional_ok {ℓ} : {A : Type ℓ} → Result A → Option A
optional_ok (ok a) = some a
optional_ok (err _) = none

-- `value or default` of an optional text
abbrev pub text_or : Text → Option Text → Text
text_or default none = default
text_or default (some s) = if is_empty s then default else s

-- A status of the query that is not one of the members is not admitted.
abbrev pub status_filter : Option Text → Option (Option ProcessingJobStatus)
status_filter none = some none
status_filter (some s) = elim (job_status_from s) [ ok status ↦ some (some status) | err _ ↦ none ]

-- The validators of `KnowledgeMetadata` run on the body.
abbrev pub valid_update : (Text → Text) → UpdateDocumentRequest → Option UpdateDocumentRequest
valid_update lower payload = elim payload.metadata [
  | none ↦ some payload
  | some m ↦ elim (validate_metadata lower m) [
    | ok valid ↦ some (record payload { metadata = some valid })
    | err _ ↦ none
  ]
]

abbrev pub upload_input : Headers → UploadForm → UploadDocumentInput
upload_input headers form = record {
  tenant_id = get_tenant_id headers;
  original_filename = text_or (text "unknown") form.filename;
  content = form.content;
  content_type = text_or (text "application/octet-stream") form.content_type;
  uploaded_by = get_uploaded_by headers;
  knowledge_space_id = form.knowledge_space_id;
}

abbrev pub key_of : Headers → Uuid → GetDocumentInput
key_of headers document_id = record { tenant_id = get_tenant_id headers; document_id = document_id }

abbrev pub list_input : Headers → Option Uuid → ℕ × ℕ → ListDocumentsInput
list_input headers space p = record {
  tenant_id = get_tenant_id headers;
  knowledge_space_id = space;
  limit = p.0;
  offset = p.1;
}

abbrev pub update_input : Headers → Uuid → UpdateDocumentRequest → UpdateDocumentMetadataInput
update_input headers document_id payload = record {
  tenant_id = get_tenant_id headers;
  document_id = document_id;
  metadata = payload.metadata;
  title = payload.title;
  knowledge_space_id = payload.knowledge_space_id;
}

abbrev pub list_jobs_input :
    Headers → Option Uuid → Option ProcessingJobStatus × (ℕ × ℕ) → ListJobsInput
list_jobs_input headers document_id q = record {
  tenant_id = get_tenant_id headers;
  document_id = document_id;
  status = q.0;
  limit = q.1.0;
  offset = q.1.1;
}

abbrev pub chat_input : Headers → ChatRequest → Text × ℕ → AnswerQuestionInput
chat_input headers payload q = record {
  tenant_id = get_tenant_id headers;
  question = q.0;
  conversation_id = payload.conversation_id;
  top_k = q.1;
}

abbrev pub chat_response : AnswerQuestionOutput → ChatResponse
chat_response output = record {
  answer = output.answer;
  conversation_id = output.conversation_id;
  sources = map (λ s. record { chunk_id = s.chunk_id; score = s.score }) output.sources;
}

abbrev pub search_response : List SearchHit → SearchResponse
search_response hits = record {
  hits = map (λ h. record { chunk_id = h.chunk_id; score = h.score; content = h.content }) hits;
}

-- `__version__`
abbrev pub version : Text
version = text "0.1.0"

abbrev pub health : Settings → HealthResponse
health settings = record { status = text "ok"; service = settings.app.name; version = version }

-- The reply to what the handler returned or raised.
abbrev pub answer : {A : Type 0} → ℕ → (A → Body) → Result A × World → Reply × World
answer status body (ok a, w) = (replied status (body a), w)
answer status body (err e, w) = (refused (handle e), w)

-- A handler in the session of its request.
unfoldable pub respond : {A : Type 0} → ℕ → (A → Body) → Action A → World → Reply × World
respond status body m w = answer status body (in_session m w)

-- Parameters that are not admitted never reach the handler.
unfoldable pub admitted :
    {A : Type 0} → Option A → (A → World → Reply × World) → World → Reply × World
admitted none f w = (unprocessable, w)
admitted (some a) f w = f a w

module _ (lib : Libraries) (settings : Settings) (headers : Headers) where
  unfoldable pub serve : Request → World → Reply × World
  serve (upload_request form) =
      respond 201 document_body
        (get_upload_document_use_case lib settings (upload_input headers form))
  serve (list_request space limit offset) = admitted (page_of limit offset) (λ p.
      respond 200 documents_body
        (get_list_documents_use_case lib settings (list_input headers space p)))
  serve (get_request document_id) =
      respond 200 document_body
        (get_get_document_use_case lib settings (key_of headers document_id))
  serve (delete_request document_id) =
      respond 204 (λ _. no_body)
        (get_delete_document_use_case lib settings (key_of headers document_id))
  serve (update_request document_id payload) =
      admitted (valid_update lib.base.lower payload) (λ valid. respond 200 document_body (
        get_update_document_metadata_use_case lib settings
          (update_input headers document_id valid)))
  serve (list_jobs_request document_id status limit offset) =
      admitted (both (status_filter status) (page_of limit offset)) (λ q.
        respond 200 jobs_body
          (get_list_processing_jobs_use_case lib settings (list_jobs_input headers document_id q)))
  serve (get_job_request job_id) =
      respond 200 job_body
        (get_get_processing_job_use_case lib settings (get_tenant_id headers) job_id)
  serve (chat_request payload) =
      admitted (both (nonempty payload.question) (positive_up_to 50 5 payload.top_k)) (λ q.
        respond 200 (λ output. chat_body (chat_response output))
          (get_answer_question_use_case lib settings (chat_input headers payload q)))
  serve (search_request payload) =
      admitted (both (nonempty payload.query) (positive_up_to 100 10 payload.top_k)) (λ q.
        respond 200 (λ hits. search_body (search_response hits))
          (get_semantic_search_use_case lib settings (get_tenant_id headers) q.0 q.1))
  serve health_request = λ w. (replied 200 (health_body (health settings)), w)
