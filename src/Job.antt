-- ===== src/Job.antt =====
-- The processing job and its state machine (app/domain/documents/jobs.py). A method changes the job
-- or raises; `now` is the reading of the clock that the method takes after its guards.
pub mod Lifecycle
pub mod Traces
use cortex_rag.Base.{
  ℕ, ◌+◌, text_eq, Text, text, Bool, true, false, not, ◌&&◌, ◌≡◌, refl, Option, none, some, List,
  [], ◌∷◌, ◌++◌, ltb,
}
use cortex_rag.Base.Int.{ℤ, ltb_ℤ, clamp}
use cortex_rag.Exec.{
  Exception, validation, new_error, Result, ok, Exec, ◌>>=◌, ◌>>◌, modify, raise, pure,
}
use cortex_rag.Status.{
  from_value, ProcessingJobStatus, job_status_value, is_active_status, is_terminal_status,
  is_queued, is_failed,
}
use cortex_rag.Status.{queued, running, completed, failed, cancelled}

pub data JobType : Type 0 where
  document_ingestion render_pages ocr chunking generate_embeddings reindex delete_index : JobType

abbrev pub job_type_value : JobType → Text
job_type_value document_ingestion = text "document_ingestion"
job_type_value render_pages = text "render_pages"
job_type_value ocr = text "ocr"
job_type_value chunking = text "chunking"
job_type_value generate_embeddings = text "generate_embeddings"
job_type_value reindex = text "reindex"
job_type_value delete_index = text "delete_index"

abbrev job_type_members : List JobType
job_type_members =
    document_ingestion ∷ render_pages ∷ ocr ∷ chunking ∷ generate_embeddings ∷ reindex
    ∷ delete_index ∷ []

-- `JobType(s)`
unfoldable pub job_type_from : Text → Result JobType
job_type_from = from_value (text "JobType") job_type_value job_type_members

-- What a member is stored as reads back as that member.
pub job_type_from-value : (m : JobType) → job_type_from (job_type_value m) ≡ ok m
unfolding job_type_from text_eq
job_type_from-value document_ingestion = refl
job_type_from-value render_pages = refl
job_type_from-value ocr = refl
job_type_from-value chunking = refl
job_type_from-value generate_embeddings = refl
job_type_from-value reindex = refl
job_type_from-value delete_index = refl

-- UUIDs and instants are only compared, stored and passed on.
abbrev pub Uuid : Type 0
Uuid = ℕ

abbrev pub Time : Type 0
Time = ℕ

pub record ProcessingJob : Type 0 where
  pub id : Uuid
  pub document_id : Uuid
  pub tenant_id : Text
  pub job_type : JobType
  pub status : ProcessingJobStatus
  pub version_id : Option Uuid
  pub priority : ℤ
  pub retry_count : ℕ
  pub progress : ℕ
  pub worker_name : Option Text
  pub error_message : Option Text
  pub started_at : Option Time
  pub finished_at : Option Time
  pub created_at : Option Time
  pub updated_at : Option Time

-- `phase in _PHASE_STATUSES`
abbrev pub is_phase : ProcessingJobStatus → Bool
is_phase ProcessingJobStatus.parsing = true
is_phase ProcessingJobStatus.rendering = true
is_phase ProcessingJobStatus.normalizing = true
is_phase ProcessingJobStatus.chunking = true
is_phase ProcessingJobStatus.embedding = true
is_phase ProcessingJobStatus.indexing = true
is_phase _ = false

-- `status in (RUNNING, *_PHASE_STATUSES)`
abbrev pub is_running_or_phase : ProcessingJobStatus → Bool
is_running_or_phase running = true
is_running_or_phase s = is_phase s

abbrev pub is_active : ProcessingJob → Bool
is_active job = is_active_status job.status

abbrev pub is_terminal : ProcessingJob → Bool
is_terminal job = is_terminal_status job.status

-- The messages of the methods, by the status that they show.
abbrev cannot_start : ProcessingJobStatus → Text
cannot_start s =
    text "Cannot start job in status '" ++ (job_status_value s ++ text "'; expected QUEUED.")

abbrev not_a_phase : ProcessingJobStatus → Text
not_a_phase s = text "'" ++ (job_status_value s ++ text "' is not a valid processing phase.")

abbrev cannot_advance : ProcessingJobStatus → Text
cannot_advance s = text "Cannot advance job in status '" ++ (job_status_value s ++ text "'.")

abbrev already_terminal : ProcessingJobStatus → Text
already_terminal s = text "Job already terminal ('" ++ (job_status_value s ++ text "').")

abbrev only_failed : ProcessingJobStatus → Text
only_failed s =
    text "Only failed jobs can be retried (status '" ++ (job_status_value s ++ text "').")

abbrev invalid : Text → Exception
invalid m = new_error validation (some m)

-- A method: a guard that raises before anything is written, then the writes.
abbrev guarded : Bool → Text → (ProcessingJob → ProcessingJob) → Exec ProcessingJob (Unit {0})
guarded true message write = raise (invalid message)
guarded false message write = modify write

unfoldable pub start : Text → Time → Exec ProcessingJob (Unit {0})
start worker_name now job =
    guarded (not (is_queued job.status)) (cannot_start job.status)
      (λ job. record job {
        status = running;
        worker_name = some worker_name;
        started_at = some now;
        progress = 0;
        error_message = none;
      })
      job

unfoldable pub advance : ProcessingJobStatus → ℤ → Exec ProcessingJob (Unit {0})
advance phase progress job =
    (guarded (not (is_phase phase)) (not_a_phase phase) (λ job. job) >> λ job.
    guarded (not (is_running_or_phase job.status)) (cannot_advance job.status)
      (λ job. record job { status = phase; progress = clamp 100 progress }) job)
      job

unfoldable pub complete : Time → Exec ProcessingJob (Unit {0})
complete now job =
    guarded (is_terminal job) (already_terminal job.status)
      (λ job. record job {
        status = completed;
        progress = 100;
        finished_at = some now;
        error_message = none;
      })
      job

unfoldable pub fail : Text → Time → Exec ProcessingJob (Unit {0})
fail error_message now job =
    guarded (is_terminal job) (already_terminal job.status)
      (λ job. record job {
        status = failed;
        finished_at = some now;
        error_message = some error_message;
      })
      job

unfoldable pub cancel : Time → Exec ProcessingJob (Unit {0})
cancel now job =
    guarded (is_terminal job) (already_terminal job.status)
      (λ job. record job { status = cancelled; finished_at = some now }) job

unfoldable pub can_retry : ℤ → ProcessingJob → Bool
can_retry max_retries job = is_failed job.status && ltb_ℤ job.retry_count max_retries

unfoldable pub retry : Exec ProcessingJob (Unit {0})
retry job =
    guarded (not (is_failed job.status)) (only_failed job.status)
      (λ job. record job {
        status = queued;
        retry_count = job.retry_count + 1;
        progress = 0;
        worker_name = none;
        started_at = none;
        finished_at = none;
        error_message = none;
      })
      job
