-- ===== src/Worker/Executor/Retries.antt =====
-- A job whose worker always raises: it is tried once and then once for each retry allowed, and then
-- it has failed for good.
use cortex_rag.Base.{ℕ, zero, suc, ◌+◌, ◌≡◌, some, List, arith, if◌then◌else◌, ℤ, pos}
use cortex_rag.Base.Int.{ltb_ℤ}
use cortex_rag.Exec.{Exception, err}
use cortex_rag.Status.{failed, queued}
use cortex_rag.World.{Env}
use cortex_rag.Worker.Executor.{Run, Worker, get_worker, begin, execute}
use cortex_rag.Worker.Executor.Outcome.{LeavesJob, execute-Settles}

module _ (env : Env) (registry : List Worker) where
  -- Executing the job again and again, each time as the last execution left it.
  unfoldable pub attempts : ℤ → ℕ → Run → Run
  attempts max_retries zero r = r
  attempts max_retries (suc n) r = attempts max_retries n (execute env max_retries registry r).1

  module _ (worker : Worker) (leaves : LeavesJob worker) where
    execute_raising :
        (max_retries : ℤ) (r : Run) {exc : Exception}
        → get_worker r.job.job_type registry ≡ some worker
        → r.job.status ≡ queued
        → (worker.run (begin env worker r).1).0 ≡ err exc
        → let job = (execute env max_retries registry r).1.job in
          (job.job_type ≡ r.job.job_type)
          × (job.retry_count ≡ (
              if ltb_ℤ r.job.retry_count max_retries
              then r.job.retry_count + 1
              else r.job.retry_count))
          × (job.status ≡ (if ltb_ℤ r.job.retry_count max_retries then queued else failed))
    execute_raising max_retries r found waiting raised =
        ground (arith, (execute-Settles env max_retries registry worker r found waiting leaves).0)

    module _ (raises : (r : Run) → (exc : Exception) × ((worker.run r).0 ≡ err exc)) where
      attempts_from :
          (n m : ℕ) (r : Run)
          → get_worker r.job.job_type registry ≡ some worker
          → r.job.status ≡ queued
          → r.job.retry_count + n ≡ m
          → ((attempts (pos m) n r).job.status ≡ queued)
            × ((attempts (pos m) (suc n) r).job.status ≡ failed)
            × ((attempts (pos m) (suc n) r).job.retry_count ≡ m)
      unfolding attempts
      attempts_from zero m r found waiting e =
          ground (arith, execute_raising (pos m) r found waiting (raises (begin env worker r).1).1)
      attempts_from (suc n) m r found waiting e =
          let (same, count, state) =
            execute_raising (pos m) r found waiting (raises (begin env worker r).1).1 in
          attempts_from n m (execute env (pos m) registry r).1 (rw same found) (ground arith)
            (ground arith)

      -- With `m` retries allowed and a worker that always raises and leaves the job object alone,
      -- a queued job that has not been retried is still queued after `m`
      -- executions, and failed for good after one more, with all its retries used.
      pub attempts_exhausted :
          (m : ℕ) (r : Run)
          → get_worker r.job.job_type registry ≡ some worker
          → r.job.status ≡ queued
          → r.job.retry_count ≡ 0
          → ((attempts (pos m) m r).job.status ≡ queued)
            × ((attempts (pos m) (suc m) r).job.status ≡ failed)
            × ((attempts (pos m) (suc m) r).job.retry_count ≡ m)
      attempts_exhausted m r found waiting fresh = attempts_from m m r found waiting (omega arith)
