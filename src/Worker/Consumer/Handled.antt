-- ===== src/Worker/Consumer/Handled.antt =====
-- A message that is handled leaves as many messages and retries together as there were.
use cortex_rag.Base.{
  ◌≡◌, refl, sym, ap, ◌∙◌, Bool, true, false, Option, none, some, List, ◌++◌, map, arith,
  if◌then◌else◌, length, select_first, ℤ, Text,
}
use cortex_rag.Exec.{Result, ok, err, pure, continue}
use cortex_rag.Status.{queued, is_queued}
use cortex_rag.Job.{JobType, Uuid, ProcessingJob, is_terminal}
use cortex_rag.World.{JobRow, Database, World, Env}
use cortex_rag.Settings.{ProcessingSettings}
use cortex_rag.Session.{settle}
use cortex_rag.Repo.Sql.{update_first}
use cortex_rag.Repo.Sql.Laws.{AreDistinct}
use cortex_rag.Repo.Sql.Sums.{map-update_first, found_by_key}
use cortex_rag.Base.Lists.{select_first_sound}
use cortex_rag.Worker.Executor.{Run, Worker, get_worker, after_run, begin, execute_with, execute}
use cortex_rag.Worker.Executor.Outcome.{begun, Settles, after_run-Settles}
use cortex_rag.Worker.Consumer.{execute_job, if_queued, handle_message}
use cortex_rag.Worker.Consumer.Budget.{
  left, MindsItself, requeued, after_run_enqueued, written_pays, Pays, begin_world, run-Pays,
}
use cortex_rag.Repo.Jobs.{to_entity, by_id, is_owned, optional_entity, write_job}
use cortex_rag.Repo.Jobs
use mathlib.Core.Path.{subst}

module _ (env : Env) (max_retries : ℤ) (registry : List Worker) where
  -- The run of a worker and what follows it, where the type has one.
  execute_is_run :
      (worker : Worker) (r : Run)
      → get_worker r.job.job_type registry ≡ some worker
      → r.job.status ≡ queued
      → execute env max_retries registry r
        ≡ after_run env max_retries
            (worker.run (begin env worker r).1).0
            (worker.run (begin env worker r).1).1
  unfolding execute execute_with begin
  execute_is_run worker r found waiting = rw found (ground arith)

  -- What an execution does where the type has no worker: the job has failed.
  execute_unregistered :
      (r : Run)
      → get_worker r.job.job_type registry ≡ none
      → r.job.status ≡ queued
      → let after = (execute env max_retries registry r).1 in
        (after.job.retry_count ≡ r.job.retry_count)
        × (after.world.jobs ≡ update_first (by_id r.job.id) (write_job env after.job) r.world.jobs)
        × (after.world.enqueued ≡ r.world.enqueued)
  unfolding execute execute_with
  execute_unregistered r missing waiting = ground arith

  module _ (r : Run) (x : JobRow) (row : select_first (by_id r.job.id) r.world.jobs ≡ some x)
      (count : x.retry_count ≡ r.job.retry_count) (waiting : r.job.status ≡ queued)
      (returned : (execute env max_retries registry r).0 ≡ ok tt) where
    registered-Pays :
        (worker : Worker)
        → get_worker r.job.job_type registry ≡ some worker
        → MindsItself worker
        → Pays env max_retries r.world (execute env max_retries registry r).1.world
    registered-Pays worker found minds =
        let (jobs', sent', job') = begin_world env max_retries worker r waiting in
        let s = (worker.run (begin env worker r).1).1 in
        let res = (worker.run (begin env worker r).1).0 in
        let began = begun worker.name (env.now r.world.readings) r.job in
        let (kept_job, kept_jobs, kept_queue) = minds (begin env worker r).1 in
        let same_job = kept_job ∙ job' in
        let run = execute_is_run worker r found waiting in
        let not_ended = ap (λ j. is_terminal j) same_job in
        let (last_job, last_write, events) =
          subst (λ e. Settles env max_retries res s began e.1) (sym run)
            (after_run-Settles env max_retries res s same_job refl) in
        let sent =
          subst (λ e. e.1.world.enqueued ≡ s.world.enqueued ++ requeued env max_retries res s.job)
            (sym run)
            (after_run_enqueued env max_retries res s not_ended
              (ap (λ e. e.0) (sym run) ∙ returned)) in
        run-Pays env max_retries res began (env.now s.world.readings) r.world s.world
          (execute env max_retries registry r).1.world x row count (kept_jobs ∙ jobs')
          (kept_queue ∙ sent') last_write
          (sent ∙ ap (λ j. s.world.enqueued ++ requeued env max_retries res j) same_job)

    unregistered-Pays :
        get_worker r.job.job_type registry ≡ none
        → Pays env max_retries r.world (execute env max_retries registry r).1.world
    unregistered-Pays missing =
        let (same_count, write, same) = execute_unregistered r missing waiting in
        let after = (execute env max_retries registry r).1 in
        let paid = written_pays env max_retries after.job r.job.id r.world.jobs x row in
        let same_left = ap (left max_retries) (count ∙ sym same_count) in
        let same_length = ap length same in
        (
          rw write (omega (arith, paid, same_left, same_length)),
          omega (arith, same_length),
          rw write (
              map-update_first (λ j. j.id) (by_id r.job.id) (write_job env after.job) _
                (λ j. refl)),
        )

    execute-Pays :
        (found : Option Worker)
        → get_worker r.job.job_type registry ≡ found
        → ((worker : Worker)
            → get_worker r.job.job_type registry ≡ some worker
            → MindsItself worker)
        → Pays env max_retries r.world (execute env max_retries registry r).1.world
    execute-Pays none e minds = unregistered-Pays e
    execute-Pays (some worker) e minds = registered-Pays worker e (minds worker e)

  -- The workers of the registry leave the job object, the jobs' table and the queue alone.
  abbrev pub AllMindThemselves : Type 0
  AllMindThemselves =
      (t : JobType) (worker : Worker) → get_worker t registry ≡ some worker → MindsItself worker

module _ (env : Env) (settings : ProcessingSettings) (registry : List Worker)
    (minds : AllMindThemselves env settings.max_retries registry) where
  -- A job that was read from its row.
  entity_of_row :
      (x : JobRow) (job : ProcessingJob)
      → optional_entity (some x) ≡ ok (some job)
      → (job.id ≡ x.id) × (job.retry_count ≡ x.retry_count)
  unfolding to_entity
  entity_of_row x job h = ground arith

  execute_job-Pays :
      (w : World) (x : JobRow) (job : ProcessingJob)
      → select_first (by_id job.id) w.jobs ≡ some x
      → x.retry_count ≡ job.retry_count
      → job.status ≡ queued
      → (execute_job env settings registry job w).0 ≡ ok tt
      → Pays env settings.max_retries w (execute_job env settings registry job w).1
  execute_job-Pays w x job row count waiting returned =
      execute-Pays env settings.max_retries registry (record { job = job; world = w }) x row count
        waiting returned (get_worker job.job_type registry) refl (minds job.job_type)

  Pays-refl : (w : World) → Pays env settings.max_retries w w
  Pays-refl w = (refl, omega arith, refl)

  settle_returned :
      (before : Database) (r : Result (Unit {0}) × World)
      → (settle before r).0 ≡ ok tt
      → settle before r ≡ r
  settle_returned before (ok a, v) h = refl
  settle_returned before (err e, v) h = ground arith

  queued-Pays :
      (w : World) (x : JobRow) (job : ProcessingJob) (waits : Bool)
      → select_first (by_id job.id) w.jobs ≡ some x
      → x.retry_count ≡ job.retry_count
      → is_queued job.status ≡ waits
      → let run =
          settle w.db ((if waits then execute_job env settings registry job else pure tt) w) in
        run.0 ≡ ok tt → Pays env settings.max_retries w run.1
  queued-Pays w x job false row count waits returned = Pays-refl w
  queued-Pays w x job true row count waits returned =
      let same = settle_returned w.db (execute_job env settings registry job w) returned in
      subst (λ r. Pays env settings.max_retries w r.1) (sym same)
        (execute_job-Pays w x job row count (ground (arith, waits))
          (ap (λ r. r.0) (sym same) ∙ returned))

  read-Pays :
      (w : World) (read : Result (Option ProcessingJob))
      → ((job : ProcessingJob)
          → read ≡ ok (some job)
          → (x : JobRow) × (select_first (by_id job.id) w.jobs ≡ some x)
            × (x.retry_count ≡ job.retry_count))
      → let run = settle w.db (continue read (if_queued env settings registry) w) in
        run.0 ≡ ok tt → Pays env settings.max_retries w run.1
  read-Pays w (err e) row returned = ground arith
  read-Pays w (ok none) row returned = Pays-refl w
  read-Pays w (ok (some job)) row returned =
      let (x, is_row, count) = row job refl in
      queued-Pays w x job (is_queued job.status) is_row count refl returned

  row_of :
      (tenant_id : Text) (job_id : Uuid) (w : World) (found : Option JobRow)
      → select_first (is_owned tenant_id job_id) w.jobs ≡ found
      → AreDistinct (map (λ j. j.id) w.jobs)
      → (job : ProcessingJob) → optional_entity found ≡ ok (some job)
      → (x : JobRow) × (select_first (by_id job.id) w.jobs ≡ some x)
        × (x.retry_count ≡ job.retry_count)
  row_of tenant_id job_id w none found distinct job read = ground arith
  row_of tenant_id job_id w (some x) found distinct job read =
      let (same_id, same_count) = entity_of_row x job read in
      let owned = select_first_sound (is_owned tenant_id job_id) w.jobs x found in
      let is_row =
        found_by_key (λ j. j.id) job_id (is_owned tenant_id job_id) (λ y h. ground arith) w.jobs x
          distinct found in
      (
        x,
        subst (λ i. select_first (by_id i) w.jobs ≡ some x) (ground (arith, owned, same_id)) is_row,
        sym same_count,
      )

  -- Where the ids of the jobs are distinct, a message whose handling returns leaves as many messages
  -- and retries together as there were, and the same ids.
  pub handle_message-Pays :
      (tenant_id : Text) (job_id : Uuid) (w : World)
      → AreDistinct (map (λ j. j.id) w.jobs)
      → (handle_message env settings registry tenant_id job_id w).0 ≡ ok tt
      → Pays env settings.max_retries w (handle_message env settings registry tenant_id job_id w).1
  unfolding handle_message Jobs.get
  handle_message-Pays tenant_id job_id w distinct returned =
      read-Pays w (optional_entity (select_first (is_owned tenant_id job_id) w.jobs))
        (row_of tenant_id job_id w (select_first (is_owned tenant_id job_id) w.jobs) refl distinct)
        returned
