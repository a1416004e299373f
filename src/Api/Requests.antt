-- ===== src/Api/Requests.antt =====
-- The bodies and parameters of the requests, with what their fields admit, and the replies
-- (app/api/v1/schemas, and the signatures of app/api/v1/routers).
use cortex_rag.Base.{
  ℕ, ◌&&◌, Option, none, some, List, [], ◌∷◌, if◌then◌else◌, leb, ltb, ℤ, pos, negsuc, Text,
}
use cortex_rag.World.{Bytes}
use cortex_rag.Job.{Uuid}
use cortex_rag.Metadata.{KnowledgeMetadata}
use cortex_rag.Vector.{Float}
use cortex_rag.Documents.View.{DocumentView, ListDocumentsOutput}
use cortex_rag.Processing.Create.{JobView}
use cortex_rag.Processing.Query.{ListJobsOutput}
use cortex_rag.Api.Errors.{JsonResponse}

-- `UpdateDocumentRequest`
pub record UpdateDocumentRequest : Type 0 where
  pub metadata : Option KnowledgeMetadata
  pub title : Option Text
  pub knowledge_space_id : Option Uuid

pub record ChatRequest : Type 0 where
  pub question : Text
  pub conversation_id : Option Uuid
  pub top_k : Option ℤ

pub record SearchRequest : Type 0 where
  pub query : Text
  pub top_k : Option ℤ

-- The form of an upload.
pub record UploadForm : Type 0 where
  pub filename : Option Text
  pub content : Bytes
  pub content_type : Option Text
  pub knowledge_space_id : Option Uuid

pub data Request : Type 0 where
  upload_request : UploadForm → Request
  list_request : Option Uuid → Option ℤ → Option ℤ → Request
  get_request : Uuid → Request
  delete_request : Uuid → Request
  update_request : Uuid → UpdateDocumentRequest → Request
  list_jobs_request : Option Uuid → Option Text → Option ℤ → Option ℤ → Request
  get_job_request : Uuid → Request
  chat_request : ChatRequest → Request
  search_request : SearchRequest → Request
  health_request : Request

pub record ChatSource : Type 0 where
  pub chunk_id : Uuid
  pub score : Float

pub record ChatResponse : Type 0 where
  pub answer : Text
  pub conversation_id : Uuid
  pub sources : List ChatSource

pub record SearchHitResponse : Type 0 where
  pub chunk_id : Uuid
  pub score : Float
  pub content : Text

pub record SearchResponse : Type 0 where
  pub hits : List SearchHitResponse

pub record HealthResponse : Type 0 where
  pub status : Text
  pub service : Text
  pub version : Text

pub data Body : Type 0 where
  no_body : Body
  document_body : DocumentView → Body
  documents_body : ListDocumentsOutput → Body
  job_body : JobView → Body
  jobs_body : ListJobsOutput → Body
  chat_body : ChatResponse → Body
  search_body : SearchResponse → Body
  health_body : HealthResponse → Body

-- What a request is answered: a handler's result under its status, the response to what was raised,
-- or the framework's own to a request whose parameters are not admitted.
pub data Reply : Type 0 where
  replied : ℕ → Body → Reply
  refused : JsonResponse → Reply
  unprocessable : Reply

abbrev pub status_of : Reply → ℕ
status_of (replied status _) = status
status_of (refused response) = response.status_code
status_of unprocessable = 422

-- `Query(default, gt=0, le=most)`, and the same of a field of a body
abbrev pub positive_up_to : ℕ → ℕ → Option ℤ → Option ℕ
positive_up_to most default none = some default
positive_up_to most default (some (pos n)) = if ltb 0 n && leb n most then some n else none
positive_up_to most default (some (negsuc n)) = none

-- `Query(default=0, ge=0)`
abbrev pub not_negative : Option ℤ → Option ℕ
not_negative none = some 0
not_negative (some (pos n)) = some n
not_negative (some (negsuc n)) = none

abbrev pub both {ℓ κ} : {A : Type ℓ} {B : Type κ} → Option A → Option B → Option (A × B)
both (some a) (some b) = some (a, b)
both _ _ = none

-- `Query(default=50, gt=0, le=200)` and that
abbrev pub page_of : Option ℤ → Option ℤ → Option (ℕ × ℕ)
page_of limit offset = both (positive_up_to 200 50 limit) (not_negative offset)

-- `Field(min_length=1)`
abbrev pub nonempty : Text → Option Text
nonempty [] = none
nonempty (c ∷ s) = some (c ∷ s)
