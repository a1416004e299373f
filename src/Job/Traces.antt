-- ===== src/Job/Traces.antt =====
-- What holds of a job over every list of method calls.
use cortex_rag.Base.{
  ℕ, ◌+◌, ◌≤◌, ◌≡◌, refl, ◌⊎◌, Bool, true, false, List, [], ◌∷◌, arith, if◌then◌else◌,
}
use cortex_rag.Exec.{is_ok}
use cortex_rag.Status.{completed, cancelled, is_failed}
use cortex_rag.Job.{ProcessingJob}
use cortex_rag.Job.Lifecycle.{
  Call, call_start, call_advance, call_complete, call_fail, call_cancel, call_retry, run_call,
  IsValid, run_call-IsValid,
}

-- The job after the calls, and how many of them returned. A caller that catches what a method raises
-- goes on with the same job.
unfoldable pub run_calls : List Call → ProcessingJob → ℕ → ProcessingJob × ℕ
run_calls [] job n = (job, n)
run_calls (c ∷ cs) job n =
    run_calls cs (run_call c job).1 (if is_ok (run_call c job).0 then n + 1 else n)

-- From a valid job every list of calls leads to a valid job.
pub run_calls-IsValid :
    (cs : List Call) (job : ProcessingJob) (n : ℕ) → IsValid job → IsValid (run_calls cs job n).0
unfolding run_calls
run_calls-IsValid [] job n h = h
run_calls-IsValid (c ∷ cs) job n h =
    run_calls-IsValid cs (run_call c job).1 _ (run_call-IsValid c job h)

run_call_of_settled :
    (c : Call) (job : ProcessingJob)
    → (job.status ≡ completed) ⊎ (job.status ≡ cancelled)
    → ((run_call c job).1 ≡ job) × (is_ok (run_call c job).0 ≡ false)
unfolding run_call
run_call_of_settled (call_start w now) job h = ground arith
run_call_of_settled (call_advance phase p) job h = ground arith
run_call_of_settled (call_complete now) job h = ground arith
run_call_of_settled (call_fail m now) job h = ground arith
run_call_of_settled (call_cancel now) job h = ground arith
run_call_of_settled call_retry job h = ground arith

-- A completed or cancelled job is settled: no list of calls changes any of its fields, and every
-- call raises.
pub settled_absorbs :
    (cs : List Call) (job : ProcessingJob) (n : ℕ)
    → (job.status ≡ completed) ⊎ (job.status ≡ cancelled)
    → run_calls cs job n ≡ (job, n)
unfolding run_calls
settled_absorbs [] job n h = refl
settled_absorbs (c ∷ cs) job n h =
    rw (run_call_of_settled c job h).0
      (rw (run_call_of_settled c job h).1 (settled_absorbs cs job n h))

abbrev is_call_fail : Call → Bool
is_call_fail (call_fail _ _) = true
is_call_fail _ = false

abbrev pub count_fails : List Call → ℕ
count_fails [] = 0
count_fails (c ∷ cs) = if is_call_fail c then count_fails cs + 1 else count_fails cs

-- A failure that is not retried yet counts as one.
abbrev pub failures : ProcessingJob → ℕ
failures job = if is_failed job.status then job.retry_count + 1 else job.retry_count

run_call-failures :
    (c : Call) (job : ProcessingJob)
    → failures (run_call c job).1 ≤ failures job + (if is_call_fail c then 1 else 0)
unfolding run_call
run_call-failures (call_start w now) job = ground arith
run_call-failures (call_advance phase p) job = ground arith
run_call-failures (call_complete now) job = ground arith
run_call-failures (call_fail m now) job = ground arith
run_call-failures (call_cancel now) job = ground arith
run_call-failures call_retry job = ground arith

run_calls-failures :
    (cs : List Call) (job : ProcessingJob) (n : ℕ)
    → failures (run_calls cs job n).0 ≤ failures job + count_fails cs
unfolding run_calls
run_calls-failures [] job n = omega arith
run_calls-failures (c ∷ cs) job n = ground (
  arith,
  run_call-failures c job,
  run_calls-failures cs (run_call c job).1 (if is_ok (run_call c job).0 then n + 1 else n),
)

-- Each retry answers a failure of its own: over any calls the retry count grows by no more than the
-- calls of `fail`, with one more for a job that had failed before them.
pub retry_count-le-fails :
    (cs : List Call) (job : ProcessingJob) (n : ℕ)
    → (run_calls cs job n).0.retry_count ≤ failures job + count_fails cs
retry_count-le-fails cs job n = ground (arith, run_calls-failures cs job n)
