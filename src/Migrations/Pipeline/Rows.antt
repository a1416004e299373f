-- ===== src/Migrations/Pipeline/Rows.antt =====
-- What the job-pipeline migration does to the rows of the jobs.
use cortex_rag.Base.{ℕ, ◌≡◌, refl, Option, none, some, pos, Text, text}
use cortex_rag.Exec.{ok}
use cortex_rag.Job.{JobType, job_type_value, job_type_from-value, Uuid, Time, ProcessingJob}
use cortex_rag.Status.{ProcessingJobStatus, job_status_value, job_status_from-value}
use cortex_rag.World.{JobRow}
use cortex_rag.Repo.Jobs.{to_entity}

-- A row of `processing_jobs` before the migration.
pub record LegacyJob : Type 0 where
  pub id : Uuid
  pub document_id : Uuid
  pub tenant_id : Text
  pub job_type : Text
  pub status : Text
  pub attempts : ℕ
  pub error : Option Text
  pub payload : Text
  pub created_at : Time
  pub updated_at : Time

unfoldable pub upgrade_job : LegacyJob → JobRow
upgrade_job j = record {
  id = j.id;
  document_id = j.document_id;
  version_id = none;
  tenant_id = j.tenant_id;
  job_type = j.job_type;
  status = j.status;
  priority = pos 0;
  retry_count = j.attempts;
  progress = 0;
  worker_name = none;
  error_message = j.error;
  started_at = none;
  finished_at = none;
  created_at = j.created_at;
  updated_at = j.updated_at;
}

unfoldable pub downgrade_job : JobRow → LegacyJob
downgrade_job j = record {
  id = j.id;
  document_id = j.document_id;
  tenant_id = j.tenant_id;
  job_type = j.job_type;
  status = j.status;
  attempts = j.retry_count;
  error = j.error_message;
  payload = text "{}";
  created_at = j.created_at;
  updated_at = j.updated_at;
}

-- The job that a legacy row becomes, with its attempts as retries and its error as the message.
abbrev pub migrated_job : JobType → ProcessingJobStatus → LegacyJob → ProcessingJob
migrated_job job_type status j = record {
  id = j.id;
  document_id = j.document_id;
  tenant_id = j.tenant_id;
  job_type = job_type;
  status = status;
  version_id = none;
  priority = pos 0;
  retry_count = j.attempts;
  progress = 0;
  worker_name = none;
  error_message = j.error;
  started_at = none;
  finished_at = none;
  created_at = some j.created_at;
  updated_at = some j.updated_at;
}

-- A job whose type and status the program knows is read after the upgrade, with its attempts as
-- retries and its error as the message; and the downgrade gives back every field but the payload,
-- which comes back empty.
pub read_upgraded_job :
    (j : LegacyJob) (job_type : JobType) (status : ProcessingJobStatus)
    → j.job_type ≡ job_type_value job_type
    → j.status ≡ job_status_value status
    → (to_entity (upgrade_job j) ≡ ok (migrated_job job_type status j))
      × (downgrade_job (upgrade_job j) ≡ record j { payload = text "{}" })
unfolding upgrade_job downgrade_job to_entity
read_upgraded_job j job_type status t s =
    (rw t (rw s (rw (job_type_from-value job_type) (rw (job_status_from-value status) refl))), refl)
