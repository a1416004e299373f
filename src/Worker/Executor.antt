-- ===== src/Worker/Executor.antt =====
-- Workers, their registry and `WorkerExecutor` (app/workers/base.py, registry.py, ingestion.py,
-- composition.py, executor.py).
pub mod Outcome
pub mod Retries
use cortex_rag.Base.{
  Bool, true, false, Option, none, some, List, [], ◌∷◌, ◌++◌, ◌==◌, if◌then◌else◌, nat_eq,
  select_first, is_some, ℤ, Text, text, text_eq,
}
use cortex_rag.Exec.{Exception, str_of, Result, ok, err, Exec, gets, ◌>>=◌, ◌>>◌}
use cortex_rag.Job.{
  JobType, document_ingestion, job_type_value, Time, ProcessingJob, start, complete, fail,
  can_retry, retry,
}
use cortex_rag.World.{World, Env, publish, read_clock, enqueue_job}
use cortex_rag.Events.{processing_job_started, processing_job_completed, processing_job_failed}
use cortex_rag.Documents.Process.{process_document}
use cortex_rag.Repo.Jobs

-- The job object that the executor holds, beside the world.
pub record Run : Type 0 where
  pub job : ProcessingJob
  pub world : World

-- `Worker`: `run` may change the job, write, and raise.
pub record Worker : Type 0 where
  pub job_type : JobType
  pub name : Text
  pub run : Exec Run (Unit {0})

-- `WorkerRegistry`: one worker for each job type. A `StrEnum` key is compared as its text.
abbrev pub same_type : JobType → JobType → Bool
same_type a b = job_type_value a == job_type_value b

unfoldable pub register : Worker → List Worker → List Worker
register worker [] = worker ∷ []
register worker (x ∷ xs) =
    if same_type x.job_type worker.job_type then worker ∷ xs else x ∷ register worker xs

unfoldable pub get_worker : JobType → List Worker → Option Worker
get_worker job_type = select_first (λ x. same_type x.job_type job_type)

-- `job_type in registry`
unfoldable pub has_worker : JobType → List Worker → Bool
unfolding get_worker
has_worker job_type registry = is_some (get_worker job_type registry)

abbrev pub on_job {ℓ} : {A : Type ℓ} → Exec ProcessingJob A → Exec Run A
on_job m r = ((m r.job).0, record r { job = (m r.job).1 })

abbrev pub on_world {ℓ} : {A : Type ℓ} → Exec World A → Exec Run A
on_world m r = ((m r.world).0, record r { world = (m r.world).1 })

-- `error_message or ""`
abbrev pub text_or_empty : Option Text → Text
text_or_empty none = []
text_or_empty (some m) = m

module _ (env : Env) where
  -- A method of the job that is given `_now()`: the clock is read behind the method's guard, so a call
  -- that raises has not read it.
  abbrev pub timed : (Time → Exec ProcessingJob (Unit {0})) → Exec Run (Unit {0})
  timed m r = elim (m (env.now r.world.readings) r.job).0 [
    | ok _ ↦ (
      ok tt,
      record r { job = (m (env.now r.world.readings) r.job).1; world = (read_clock env r.world).1 },
    )
    | err exc ↦ (err exc, record r { job = (m (env.now r.world.readings) r.job).1 })
  ]

  -- `self._jobs.update(job)`
  unfoldable pub save_job : Exec Run (Unit {0})
  unfolding Jobs.update
  save_job r = on_world (Jobs.update env r.job) r

  unfoldable pub publish_started : Text → Exec Run (Unit {0})
  unfolding publish
  publish_started name r =
      on_world (publish (processing_job_started r.job.id r.job.document_id r.job.tenant_id name)) r

  unfoldable pub publish_completed : Exec Run (Unit {0})
  unfolding publish
  publish_completed r =
      on_world (publish (processing_job_completed r.job.id r.job.document_id r.job.tenant_id)) r

  -- `_publish_failed`
  unfoldable pub publish_failed : Exec Run (Unit {0})
  unfolding publish
  publish_failed r =
      on_world
        (publish (
          processing_job_failed r.job.id r.job.document_id r.job.tenant_id
            (text_or_empty r.job.error_message) r.job.retry_count))
        r

  unfoldable pub enqueue_again : Exec Run (Unit {0})
  unfolding enqueue_job
  enqueue_again r = on_world (enqueue_job env r.job.tenant_id r.job.id) r

  abbrev pub no_worker : JobType → Text
  no_worker t = text "No worker registered for job type '" ++ (job_type_value t ++ text "'.")

  -- The end of the `except` block: put the job back in the queue, or give up.
  unfoldable pub retry_or_give_up : Bool → Exec Run (Unit {0})
  unfolding retry save_job enqueue_again publish_failed
  retry_or_give_up true = on_job retry >> save_job >> enqueue_again
  retry_or_give_up false = save_job >> publish_failed

  unfoldable pub on_failure : ℤ → Exception → Exec Run (Unit {0})
  unfolding read_clock fail can_retry retry_or_give_up
  on_failure max_retries exc = do
    timed (fail (str_of exc))
    again ← gets (λ r. can_retry max_retries r.job)
    retry_or_give_up again

  unfoldable pub on_success : Exec Run (Unit {0})
  unfolding read_clock complete save_job publish_completed
  on_success = do timed complete; save_job; publish_completed

  -- What follows `worker.run(job)`, by how it ended.
  abbrev pub after_run : ℤ → Result (Unit {0}) → Exec Run (Unit {0})
  after_run max_retries (ok _) = on_success
  after_run max_retries (err exc) = on_failure max_retries exc

  -- Up to `worker.run(job)`.
  unfoldable pub begin : Worker → Exec Run (Unit {0})
  unfolding read_clock start save_job publish_started
  begin worker = do timed (start worker.name); save_job; publish_started worker.name

  unfoldable pub execute_with : ℤ → Option Worker → Exec Run (Unit {0})
  unfolding read_clock fail save_job publish_failed begin on_success on_failure
  execute_with max_retries none = do
    job_type ← gets (λ r. r.job.job_type)
    timed (fail (no_worker job_type))
    save_job
    publish_failed
  execute_with max_retries (some worker) = do
    begin worker
    λ r. after_run max_retries (worker.run r).0 (worker.run r).1

  -- `WorkerExecutor.execute`; the job that it returns is the one in the state.
  unfoldable pub execute : ℤ → List Worker → Exec Run (Unit {0})
  execute max_retries registry r = execute_with max_retries (get_worker r.job.job_type registry) r

  -- `IngestionWorker`
  abbrev pub ingestion_worker : Worker
  ingestion_worker = record {
    job_type = document_ingestion;
    name = text "IngestionWorker";
    run = λ r. on_world (process_document env r.job.tenant_id r.job.document_id) r;
  }

  -- `build_worker_registry`
  unfoldable pub build_worker_registry : List Worker
  unfolding register
  build_worker_registry = register ingestion_worker []
