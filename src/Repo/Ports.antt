-- ===== src/Repo/Ports.antt =====
-- The port `ProcessingJobRepository` (app/domain/documents/repositories.py): its methods over a state,
-- and what its users may rely on.
use cortex_rag.Base.{ℕ, ◌≡◌, Option, some, List, Text}
use cortex_rag.Exec.{Exception, ok, err, Exec}
use cortex_rag.Status.{ProcessingJobStatus}
use cortex_rag.Job.{JobType, Uuid, Time, ProcessingJob}

pub record JobRepository (S : Type 0) : Type 0 where
  pub add : ProcessingJob → Exec S (Unit {0})
  pub get : Text → Uuid → Exec S (Option ProcessingJob)
  pub update : ProcessingJob → Exec S (Unit {0})
  pub get_active_by_type : Uuid → JobType → Exec S (Option ProcessingJob)
  pub list_jobs :
      Text → Option Uuid → Option ProcessingJobStatus → ℕ → ℕ → Exec S (List ProcessingJob × ℕ)

-- A job as it is stored at that time.
abbrev pub stored : Time → ProcessingJob → ProcessingJob
stored now job = record job { created_at = some now; updated_at = some now }

-- What `update` with `job` makes of the stored job: its document, tenant, type, version and creation
-- stay.
abbrev pub merged : ProcessingJob → ProcessingJob → Time → ProcessingJob
merged job old now = record old {
  status = job.status;
  priority = job.priority;
  retry_count = job.retry_count;
  progress = job.progress;
  worker_name = job.worker_name;
  error_message = job.error_message;
  started_at = job.started_at;
  finished_at = job.finished_at;
  updated_at = some now;
}

-- The repository as a dictionary of jobs by tenant and id, in the states that are `valid`.
pub record IsDictionary {S : Type 0} (repo : JobRepository S) (valid : S → Type 0) : Type 0 where
  -- reading changes nothing
  pub get_reads : (tenant_id : Text) (job_id : Uuid) (s : S) → (repo.get tenant_id job_id s).1 ≡ s
  -- a job that was added is found under its tenant and id, and no other one is touched
  pub get-add :
      (job : ProcessingJob) (s : S)
      → (repo.add job s).0 ≡ ok tt
      → (now : Time) × ((repo.get job.tenant_id job.id (repo.add job s).1).0
          ≡ ok (some (stored now job)))
  pub get-add_ne :
      (job : ProcessingJob) (tenant_id : Text) (job_id : Uuid) (s : S)
      → (job_id ≡ job.id → ⊥)
      → (repo.get tenant_id job_id (repo.add job s).1).0 ≡ (repo.get tenant_id job_id s).0
  -- an addition that raises changes nothing
  pub add_refused :
      (job : ProcessingJob) (s : S) (e : Exception)
      → (repo.add job s).0 ≡ err e
      → (repo.add job s).1 ≡ s
  -- a job that is there is merged with the new one, and no other one is touched
  pub get-update :
      (job old : ProcessingJob) (tenant_id : Text) (s : S)
      → valid s
      → (repo.get tenant_id job.id s).0 ≡ ok (some old)
      → (now : Time) × ((repo.get tenant_id job.id (repo.update job s).1).0
          ≡ ok (some (merged job old now)))
  pub get-update_ne :
      (job : ProcessingJob) (tenant_id : Text) (job_id : Uuid) (s : S)
      → (job_id ≡ job.id → ⊥)
      → (repo.get tenant_id job_id (repo.update job s).1).0 ≡ (repo.get tenant_id job_id s).0
  -- the states stay valid
  pub valid-add : (job : ProcessingJob) (s : S) → valid s → valid (repo.add job s).1
  pub valid-update : (job : ProcessingJob) (s : S) → valid s → valid (repo.update job s).1
