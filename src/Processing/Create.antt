-- ===== src/Processing/Create.antt =====
-- `CreateProcessingJobUseCase` (create_processing_job.py) and `JobView` (processing/dtos.py).
pub mod Effect
use cortex_rag.Base.{ℕ, Option, none, some, ◌++◌, ℤ, Text, text}
use cortex_rag.Exec.{conflict, Exception, new_error, pure, raise, ◌>>=◌, ◌>>◌}
use cortex_rag.Status.{ProcessingJobStatus, queued}
use cortex_rag.Job.{JobType, job_type_value, Uuid, Time, ProcessingJob}
use cortex_rag.World.{Action, Env, publish, draw_uuid, read_clock, enqueue_job}
use cortex_rag.Settings.{ProcessingSettings}
use cortex_rag.Events.{processing_job_created}
use cortex_rag.Repo.Jobs

-- `JobView`, a read model with the fields of the job.
pub record JobView : Type 0 where
  pub id : Uuid
  pub document_id : Uuid
  pub version_id : Option Uuid
  pub tenant_id : Text
  pub job_type : JobType
  pub status : ProcessingJobStatus
  pub priority : ℤ
  pub retry_count : ℕ
  pub progress : ℕ
  pub worker_name : Option Text
  pub error_message : Option Text
  pub started_at : Option Time
  pub finished_at : Option Time
  pub created_at : Option Time
  pub updated_at : Option Time

-- `JobView.from_entity`
unfoldable pub from_entity : ProcessingJob → JobView
from_entity job = record {
  id = job.id;
  document_id = job.document_id;
  version_id = job.version_id;
  tenant_id = job.tenant_id;
  job_type = job.job_type;
  status = job.status;
  priority = job.priority;
  retry_count = job.retry_count;
  progress = job.progress;
  worker_name = job.worker_name;
  error_message = job.error_message;
  started_at = job.started_at;
  finished_at = job.finished_at;
  created_at = job.created_at;
  updated_at = job.updated_at;
}

pub record CreateProcessingJobInput : Type 0 where
  pub tenant_id : Text
  pub document_id : Uuid
  pub version_id : Option Uuid
  pub job_type : JobType
  pub priority : Option ℤ

-- The job that is written: queued, with the priority asked for or the default.
abbrev pub new_job : ProcessingSettings → CreateProcessingJobInput → Uuid → Time → ProcessingJob
new_job settings input id now = record {
  id = id;
  document_id = input.document_id;
  tenant_id = input.tenant_id;
  job_type = input.job_type;
  status = queued;
  version_id = input.version_id;
  priority = elim input.priority [ none ↦ settings.default_priority | some p ↦ p ];
  retry_count = 0;
  progress = 0;
  worker_name = none;
  error_message = none;
  started_at = none;
  finished_at = none;
  created_at = some now;
  updated_at = some now;
}

module _ (env : Env) where
  abbrev slot_taken : CreateProcessingJobInput → ProcessingJob → Exception
  slot_taken input active = new_error conflict (
      some (
        text "An active '"
        ++ (job_type_value input.job_type
            ++ (text "' job already exists for document "
                ++ (env.uuid_str input.document_id
                    ++ (text " (id=" ++ (env.uuid_str active.id ++ text ").")))))))

  -- `if active is not None: raise ConflictError(…)`
  abbrev require_free : CreateProcessingJobInput → Option ProcessingJob → Action (Unit {0})
  require_free input none = pure tt
  require_free input (some active) = raise (slot_taken input active)

  unfoldable pub create_processing_job :
      ProcessingSettings → CreateProcessingJobInput → Action JobView
  unfolding draw_uuid read_clock publish enqueue_job Jobs.get_active_by_type Jobs.add
  create_processing_job settings input = do
    active ← Jobs.get_active_by_type input.document_id input.job_type
    require_free input active
    now ← read_clock env
    id ← draw_uuid env
    let job = new_job settings input id now
    Jobs.add env job
    publish
        (processing_job_created job.id job.document_id job.tenant_id (job_type_value job.job_type))
    enqueue_job env job.tenant_id job.id
    pure (from_entity job)
