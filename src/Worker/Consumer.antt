-- ===== src/Worker/Consumer.antt =====
-- `_handle_message` (scripts/run_worker.py).
pub mod Delivery
pub mod Loop
pub mod Budget
pub mod Handled
pub mod Drains
use cortex_rag.Base.{Option, none, some, List, if◌then◌else◌, Text}
use cortex_rag.Exec.{pure, ◌>>=◌, ◌>>◌}
use cortex_rag.Status.{is_queued}
use cortex_rag.Job.{Uuid, ProcessingJob}
use cortex_rag.World.{Action, Env}
use cortex_rag.Settings.{ProcessingSettings}
use cortex_rag.Worker.Executor.{Worker, execute}
use cortex_rag.Session.{in_session}
use cortex_rag.Repo.Jobs

module _ (env : Env) (settings : ProcessingSettings) (registry : List Worker) where
  -- `executor.execute(job)`
  abbrev pub execute_job : ProcessingJob → Action (Unit {0})
  execute_job job w =
      let (r, s) = execute env settings.max_retries registry (record { job = job; world = w }) in
      (r, s.world)

  -- A job that is not there, and one that is not queued, are left alone.
  abbrev pub if_queued : Option ProcessingJob → Action (Unit {0})
  if_queued none = pure tt
  if_queued (some job) = if is_queued job.status then execute_job job else pure tt

  -- `_handle_message`, for the ids in the message: the text of the job's id stands as the UUID that it
  -- names. The registry is that of the composition.
  unfoldable pub handle_message : Text → Uuid → Action (Unit {0})
  unfolding Jobs.get
  handle_message tenant_id job_id = in_session (do job ← Jobs.get tenant_id job_id; if_queued job)
