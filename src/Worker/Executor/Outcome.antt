-- ===== src/Worker/Executor/Outcome.antt =====
-- What one execution leaves: the job, its row, the events and the queue.
use cortex_rag.Base.{
  ◌+◌, ◌≡◌, refl, ◌∙◌, false, none, some, List, [], ◌∷◌, ◌++◌, arith, if◌then◌else◌, ℤ, Text,
}
use cortex_rag.Base.Int.{ltb_ℤ}
use cortex_rag.Exec.{str_of, Result, ok, err}
use cortex_rag.Status.{failed, queued, running, completed}
use cortex_rag.Job.{Time, ProcessingJob, is_terminal}
use cortex_rag.World.{Env}
use cortex_rag.Events.{DomainEvent, processing_job_completed, processing_job_failed}
use cortex_rag.Repo.Sql.{update_first}
use cortex_rag.Repo.Jobs.{by_id, write_job}
use cortex_rag.Worker.Executor.{
  Run, Worker, get_worker, on_failure, on_success, after_run, begin, execute_with, execute,
}
use mathlib.Core.List.{append-nil}
use mathlib.Core.Path.{subst}

-- The job as it is handed to the worker.
abbrev pub begun : Text → Time → ProcessingJob → ProcessingJob
begun name now job = record job {
  status = running;
  worker_name = some name;
  started_at = some now;
  progress = 0;
  error_message = none;
}

-- The job after the worker, which returned or raised: completed; back in the queue with one more
-- retry, where one is left; or failed with the text of the exception.
abbrev pub settled : ℤ → Result (Unit {0}) → Time → ProcessingJob → ProcessingJob
settled max_retries (ok _) now job = record job {
  status = completed;
  progress = 100;
  finished_at = some now;
  error_message = none;
}
settled max_retries (err exc) now job =
    if ltb_ℤ job.retry_count max_retries
    then record job {
      status = queued;
      retry_count = job.retry_count + 1;
      progress = 0;
      worker_name = none;
      started_at = none;
      finished_at = none;
      error_message = none;
    }
    else record job { status = failed; finished_at = some now; error_message = some (str_of exc) }

-- A worker that writes nothing into the job object, as `IngestionWorker`.
abbrev pub LeavesJob : Worker → Type 0
LeavesJob worker = (r : Run) → (worker.run r).1.job ≡ r.job

module _ (env : Env) where
  after_run_job :
      (max_retries : ℤ) (res : Result (Unit {0})) (s : Run)
      → is_terminal s.job ≡ false
      → (after_run env max_retries res s).1.job
        ≡ settled max_retries res (env.now s.world.readings) s.job
  unfolding on_success on_failure
  after_run_job max_retries (ok _) s h = ground arith
  after_run_job max_retries (err exc) s h = ground arith

  begin_job :
      (worker : Worker) (r : Run)
      → r.job.status ≡ queued
      → ((begin env worker r).0 ≡ ok tt)
        × ((begin env worker r).1.job ≡ begun worker.name (env.now r.world.readings) r.job)
  unfolding begin
  begin_job worker r h = ground arith

  after_run_row :
      (max_retries : ℤ) (res : Result (Unit {0})) (s : Run)
      → is_terminal s.job ≡ false
      → (after_run env max_retries res s).1.world.jobs
        ≡ update_first
            (by_id s.job.id)
            (write_job env (settled max_retries res (env.now s.world.readings) s.job))
            s.world.jobs
  unfolding on_success on_failure
  after_run_row max_retries (ok _) s h = ground arith
  after_run_row max_retries (err exc) s h = ground arith

  -- What a run that ended this way publishes.
  abbrev pub final_events : ℤ → Result (Unit {0}) → ProcessingJob → List DomainEvent
  final_events max_retries (ok _) job =
      processing_job_completed job.id job.document_id job.tenant_id ∷ []
  final_events max_retries (err exc) job =
      if ltb_ℤ job.retry_count max_retries
      then []
      else processing_job_failed job.id job.document_id job.tenant_id (str_of exc) job.retry_count
        ∷ []

  after_run_events :
      (max_retries : ℤ) (res : Result (Unit {0})) (s : Run)
      → is_terminal s.job ≡ false
      → (after_run env max_retries res s).1.world.published
        ≡ s.world.published ++ final_events max_retries res s.job
  unfolding on_success on_failure
  after_run_events max_retries (ok _) s h = ground arith
  after_run_events max_retries (err exc) s h = ground (arith, append-nil s.world.published)

  -- `after` is what a run of `job` that ended in `s` leaves: the settled job, its row written with
  -- it, and the completion or the terminal failure published.
  abbrev pub Settles : ℤ → Result (Unit {0}) → Run → ProcessingJob → Run → Type 0
  Settles max_retries res s job after =
      let final = settled max_retries res (env.now s.world.readings) job in
      (after.job ≡ final)
      × (after.world.jobs ≡ update_first (by_id job.id) (write_job env final) s.world.jobs)
      × (after.world.published ≡ s.world.published ++ final_events max_retries res job)

  pub after_run-Settles :
      (max_retries : ℤ) (res : Result (Unit {0})) (s : Run) {job : ProcessingJob}
      → s.job ≡ job
      → is_terminal job ≡ false
      → Settles max_retries res s job (after_run env max_retries res s).1
  after_run-Settles max_retries res s e active =
      subst
        (λ j.
          is_terminal j ≡ false → Settles max_retries res s j (after_run env max_retries res s).1)
        e
        (λ h. (
          after_run_job max_retries res s h,
          after_run_row max_retries res s h,
          after_run_events max_retries res s h,
        ))
        active

  module _ (max_retries : ℤ) (registry : List Worker) (worker : Worker) (r : Run)
      (found : get_worker r.job.job_type registry ≡ some worker)
      (is_waiting : r.job.status ≡ queued) (leaves : LeavesJob worker) where
    execute_begun :
        (execute env max_retries registry r).1
        ≡ (after_run env max_retries
            (worker.run (begin env worker r).1).0
            (worker.run (begin env worker r).1).1).1
    unfolding execute execute_with
    execute_begun = rw found (rw (begin_job worker r is_waiting).0 refl)

    -- Executing a queued job whose type has a worker that leaves the job object alone: the job that
    -- comes back is the settled one, its row has been written with it, and the completion or the
    -- terminal failure, and nothing else, has been published since the worker ended.
    pub execute-Settles :
        let (res, s) = worker.run (begin env worker r).1 in
        Settles max_retries res s
          (begun worker.name (env.now r.world.readings) r.job)
          (execute env max_retries registry r).1
    execute-Settles = rw execute_begun (
        after_run-Settles max_retries (worker.run (begin env worker r).1).0
          (worker.run (begin env worker r).1).1
          (leaves (begin env worker r).1 ∙ (begin_job worker r is_waiting).1) refl)
