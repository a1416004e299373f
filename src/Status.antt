-- ===== src/Status.antt =====
-- The enums of app/shared/constants.py. A `StrEnum` member is stored as its value, a text, and is
-- read back by calling the class on that text, which raises a `ValueError` on any other text.
use cortex_rag.Base.{
  ◌==◌, text_eq, Text, text, Bool, true, false, ◌≡◌, refl, Option, none, some, List, [], ◌∷◌, ◌++◌,
  select_first,
}
use cortex_rag.Exec.{value_error, Result, ok, err}

pub data DocumentStatus : Type 0 where
  uploaded processing processed failed deleted : DocumentStatus

pub data ProcessingJobStatus : Type 0 where
  queued running parsing rendering normalizing chunking embedding indexing : ProcessingJobStatus
  completed failed cancelled : ProcessingJobStatus

pub data StorageProviderKind : Type 0 where
  local s3 : StorageProviderKind

abbrev from_member {ℓ} : {E : Type ℓ} → Text → Text → Option E → Result E
from_member cls s none = err (value_error (text "'" ++ s ++ text "' is not a valid " ++ cls))
from_member cls s (some m) = ok m

-- `Class(s)` for an enum with these values and members.
abbrev pub from_value {ℓ} : {E : Type ℓ} → Text → (E → Text) → List E → Text → Result E
from_value cls value members s = from_member cls s (select_first (λ m. value m == s) members)

abbrev pub document_status_value : DocumentStatus → Text
document_status_value uploaded = text "uploaded"
document_status_value processing = text "processing"
document_status_value processed = text "processed"
document_status_value failed = text "failed"
document_status_value deleted = text "deleted"

abbrev document_status_members : List DocumentStatus
document_status_members = uploaded ∷ processing ∷ processed ∷ failed ∷ deleted ∷ []

-- `DocumentStatus(s)`
unfoldable pub document_status_from : Text → Result DocumentStatus
document_status_from =
    from_value (text "DocumentStatus") document_status_value document_status_members

-- What a member is stored as reads back as that member.
pub document_status_from-value :
    (m : DocumentStatus) → document_status_from (document_status_value m) ≡ ok m
unfolding document_status_from text_eq
document_status_from-value uploaded = refl
document_status_from-value processing = refl
document_status_from-value processed = refl
document_status_from-value failed = refl
document_status_from-value deleted = refl

abbrev pub job_status_value : ProcessingJobStatus → Text
job_status_value queued = text "queued"
job_status_value running = text "running"
job_status_value parsing = text "parsing"
job_status_value rendering = text "rendering"
job_status_value normalizing = text "normalizing"
job_status_value chunking = text "chunking"
job_status_value embedding = text "embedding"
job_status_value indexing = text "indexing"
job_status_value completed = text "completed"
job_status_value failed = text "failed"
job_status_value cancelled = text "cancelled"

abbrev job_status_members : List ProcessingJobStatus
job_status_members =
    queued ∷ running ∷ parsing ∷ rendering ∷ normalizing ∷ chunking ∷ embedding ∷ indexing
    ∷ completed ∷ failed ∷ cancelled ∷ []

-- `ProcessingJobStatus(s)`
unfoldable pub job_status_from : Text → Result ProcessingJobStatus
job_status_from = from_value (text "ProcessingJobStatus") job_status_value job_status_members

-- What a member is stored as reads back as that member.
pub job_status_from-value : (m : ProcessingJobStatus) → job_status_from (job_status_value m) ≡ ok m
unfolding job_status_from text_eq
job_status_from-value queued = refl
job_status_from-value running = refl
job_status_from-value parsing = refl
job_status_from-value rendering = refl
job_status_from-value normalizing = refl
job_status_from-value chunking = refl
job_status_from-value embedding = refl
job_status_from-value indexing = refl
job_status_from-value completed = refl
job_status_from-value failed = refl
job_status_from-value cancelled = refl

abbrev pub storage_provider_value : StorageProviderKind → Text
storage_provider_value local = text "local"
storage_provider_value s3 = text "s3"

abbrev storage_provider_members : List StorageProviderKind
storage_provider_members = local ∷ s3 ∷ []

-- `StorageProviderKind(s)`
unfoldable pub storage_provider_from : Text → Result StorageProviderKind
storage_provider_from =
    from_value (text "StorageProviderKind") storage_provider_value storage_provider_members

-- What a member is stored as reads back as that member.
pub storage_provider_from-value :
    (m : StorageProviderKind) → storage_provider_from (storage_provider_value m) ≡ ok m
unfolding storage_provider_from text_eq
storage_provider_from-value local = refl
storage_provider_from-value s3 = refl

-- `s in ACTIVE_JOB_STATUSES`
abbrev pub is_active_status : ProcessingJobStatus → Bool
is_active_status queued = true
is_active_status running = true
is_active_status parsing = true
is_active_status rendering = true
is_active_status normalizing = true
is_active_status chunking = true
is_active_status embedding = true
is_active_status indexing = true
is_active_status _ = false

-- `s in TERMINAL_JOB_STATUSES`
abbrev pub is_terminal_status : ProcessingJobStatus → Bool
is_terminal_status completed = true
is_terminal_status failed = true
is_terminal_status cancelled = true
is_terminal_status _ = false

abbrev pub is_queued : ProcessingJobStatus → Bool
is_queued queued = true
is_queued _ = false

abbrev pub is_failed : ProcessingJobStatus → Bool
is_failed failed = true
is_failed _ = false
