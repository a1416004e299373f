-- ===== src/Worker/Consumer/Budget.antt =====
-- Every message that a run puts back in the queue is paid by a retry of its job.
use cortex_rag.Base.{
  ℕ, suc, ◌+◌, ◌-◌, ◌≤◌, ◌≡◌, refl, ap, ◌∙◌, true, false, some, List, [], ◌∷◌, ◌++◌, map, arith,
  if◌then◌else◌, length, select_first, ℤ, pos, negsuc, Text,
}
use cortex_rag.Exec.{Result, ok, err}
use cortex_rag.Status.{queued}
use cortex_rag.Job.{Uuid, Time, ProcessingJob, is_terminal}
use cortex_rag.World.{JobRow, World, Env, enqueue_job}
use cortex_rag.Repo.Sql.{update_first}
use cortex_rag.Repo.Sql.Sums.{
  sum_of, sum_of-update_first, select_first-update_first, map-update_first,
}
use cortex_rag.Base.Int.{ltb_ℤ}
use cortex_rag.Worker.Executor.{Run, Worker, on_failure, on_success, after_run, begin}
use cortex_rag.Worker.Executor.Outcome.{begun, settled}
use cortex_rag.Repo.Jobs.{by_id, write_job}
use cortex_rag.Base.Lists.{length-append, select_first_sound}
use mathlib.Core.List.{append-nil}
use mathlib.Core.Path.{subst}

-- The retries that a row or a job of that count still has.
abbrev pub left : ℤ → ℕ → ℕ
left (pos m) count = m - count
left (negsuc _) count = 0

abbrev pub budget : ℤ → List JobRow → ℕ
budget max_retries jobs = sum_of (λ j. left max_retries j.retry_count) jobs

-- The messages put in the queue so far, and the retries left.
abbrev pub total : ℤ → World → ℕ
total max_retries w = length w.enqueued + budget max_retries w.jobs

-- A worker that leaves the job object, the jobs' table and the queue alone.
abbrev pub MindsItself : Worker → Type 0
MindsItself worker =
    (r : Run)
    → ((worker.run r).1.job ≡ r.job)
      × ((worker.run r).1.world.jobs ≡ r.world.jobs)
      × ((worker.run r).1.world.enqueued ≡ r.world.enqueued)

-- A retry is one fewer left, for one message more.
left-retry :
    (max_retries : ℤ) (count : ℕ)
    → ltb_ℤ count max_retries ≡ true
    → suc (left max_retries (count + 1)) ≡ left max_retries count
left-retry (pos m) count h = ground arith
left-retry (negsuc m) count h = ground arith

module _ (env : Env) (max_retries : ℤ) where
  -- What a run that ended this way puts in the queue.
  abbrev pub requeued : Result (Unit {0}) → ProcessingJob → List (Text × Uuid)
  requeued (ok _) job = []
  requeued (err _) job =
      if ltb_ℤ job.retry_count max_retries then (job.tenant_id, job.id) ∷ [] else []

  pub after_run_enqueued :
      (res : Result (Unit {0})) (s : Run)
      → is_terminal s.job ≡ false
      → (after_run env max_retries res s).0 ≡ ok tt
      → (after_run env max_retries res s).1.world.enqueued ≡ s.world.enqueued ++ requeued res s.job
  unfolding on_success on_failure enqueue_job
  after_run_enqueued (ok _) s h returned = ground (arith, append-nil s.world.enqueued)
  after_run_enqueued (err exc) s h returned = ground (arith, append-nil s.world.enqueued)

  -- Writing a job into its row changes the retries that are left by those of the job.
  pub written_pays :
      (job : ProcessingJob) (i : Uuid) (rows : List JobRow) (x : JobRow)
      → select_first (by_id i) rows ≡ some x
      → budget max_retries (update_first (by_id i) (write_job env job) rows)
          + left max_retries x.retry_count
        ≡ budget max_retries rows + left max_retries job.retry_count
  written_pays job i rows x found =
      sum_of-update_first (λ j. left max_retries j.retry_count) (by_id i) (write_job env job) rows x
        found

  -- `after` has as many messages and retries together as `before`, no fewer messages, and the same
  -- ids of jobs.
  abbrev pub Pays : World → World → Type 0
  Pays before after =
      (total max_retries after ≡ total max_retries before)
      × (length before.enqueued ≤ length after.enqueued)
      × (map (λ j. j.id) after.jobs ≡ map (λ j. j.id) before.jobs)

  pub begin_world :
      (worker : Worker) (r : Run)
      → r.job.status ≡ queued
      → ((begin env worker r).1.world.jobs
          ≡ update_first
              (by_id r.job.id)
              (write_job env (begun worker.name (env.now r.world.readings) r.job))
              r.world.jobs)
        × ((begin env worker r).1.world.enqueued ≡ r.world.enqueued)
        × ((begin env worker r).1.job ≡ begun worker.name (env.now r.world.readings) r.job)
  unfolding begin
  begin_world worker r waiting = ground arith

  settled_pays :
      (res : Result (Unit {0})) (now : Time) (job : ProcessingJob)
      → length (requeued res job) + left max_retries (settled max_retries res now job).retry_count
        ≡ left max_retries job.retry_count
  settled_pays (ok _) now job = ground arith
  settled_pays (err exc) now job = ground (arith, left-retry max_retries job.retry_count)

  length_sent :
      (after s w sent : List (Text × Uuid))
      → after ≡ s ++ sent
      → s ≡ w
      → length after ≡ length w + length sent
  length_sent after s w sent e same = rw e (rw same (length-append w sent))

  -- The end of a run of `job`, whose row was written when it began.
  pub run-Pays :
      (res : Result (Unit {0})) (job : ProcessingJob) (now : Time) (w s after : World) (x : JobRow)
      → select_first (by_id job.id) w.jobs ≡ some x
      → x.retry_count ≡ job.retry_count
      → s.jobs ≡ update_first (by_id job.id) (write_job env job) w.jobs
      → s.enqueued ≡ w.enqueued
      → after.jobs
        ≡ update_first (by_id job.id) (write_job env (settled max_retries res now job)) s.jobs
      → after.enqueued ≡ s.enqueued ++ requeued res job
      → Pays w after
  run-Pays res job now w s after x row count first_write same last_write sent =
      let final = settled max_retries res now job in
      let is_it = select_first_sound (by_id job.id) w.jobs x row in
      let row' =
        select_first-update_first (by_id job.id) (write_job env job) w.jobs x row
          (ground (arith, is_it)) in
      let began = written_pays job job.id w.jobs x row in
      let ended =
        written_pays final job.id (update_first (by_id job.id) (write_job env job) w.jobs)
          (write_job env job x) row' in
      let jobs' = last_write ∙ ap (update_first (by_id job.id) (write_job env final)) first_write in
      let paid = settled_pays res now job in
      let sums = length_sent after.enqueued s.enqueued w.enqueued (requeued res job) sent same in
      let began' =
        subst
          (λ n.
            budget max_retries (update_first (by_id job.id) (write_job env job) w.jobs)
              + left max_retries n
            ≡ budget max_retries w.jobs + left max_retries job.retry_count)
          count began in
      (
        rw jobs' (omega (arith, sums, began', ended, paid)),
        omega (arith, sums),
        rw jobs' (
            map-update_first (λ j. j.id) (by_id job.id) (write_job env final) _ (λ j. refl)
            ∙ map-update_first (λ j. j.id) (by_id job.id) (write_job env job) w.jobs (λ j. refl)),
      )
