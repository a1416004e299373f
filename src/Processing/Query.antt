-- ===== src/Processing/Query.antt =====
-- `GetProcessingJobUseCase` and `ListProcessingJobsUseCase` (get_processing_job.py,
-- list_processing_jobs.py).
use cortex_rag.Repo.Jobs
use cortex_rag.Base.{ℕ, Option, some, List, ◌++◌, map, Text, text}
use cortex_rag.Exec.{entity_not_found, Exception, new_error, pure, or_raise, ◌>>=◌}
use cortex_rag.Status.{ProcessingJobStatus}
use cortex_rag.Job.{Uuid}
use cortex_rag.World.{Action, Env}
use cortex_rag.Processing.Create.{JobView, from_entity}

abbrev not_found : Text → Exception
not_found m = new_error entity_not_found (some m)

unfoldable pub get_processing_job : Env → Text → Uuid → Action JobView
unfolding from_entity Jobs.get
get_processing_job env tenant_id job_id = do
  job ← Jobs.get tenant_id job_id
  found ←
      or_raise (not_found (text "Processing job " ++ (env.uuid_str job_id ++ text " not found.")))
        job
  pure (from_entity found)

pub record ListJobsInput : Type 0 where
  pub tenant_id : Text
  pub document_id : Option Uuid
  pub status : Option ProcessingJobStatus
  pub limit : ℕ
  pub offset : ℕ

pub record ListJobsOutput : Type 0 where
  pub items : List JobView
  pub total : ℕ
  pub limit : ℕ
  pub offset : ℕ

unfoldable pub list_processing_jobs : ListJobsInput → Action ListJobsOutput
unfolding from_entity Jobs.list_jobs
list_processing_jobs input = do
  (items, total) ←
      Jobs.list_jobs input.tenant_id input.document_id input.status input.limit input.offset
  pure (record {
    items = map from_entity items;
    total = total;
    limit = input.limit;
    offset = input.offset;
  })
