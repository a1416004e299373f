-- ===== src/Job/Lifecycle.antt =====
-- The methods of a job one at a time.
use cortex_rag.Base.{◌≤◌, Text, true, ◌≡◌, ◌≢◌, none, arith, is_some}
use cortex_rag.Base.Int.{ℤ, clamp}
use cortex_rag.Exec.{Result, ok, err, Exec}
use cortex_rag.Status.{
  ProcessingJobStatus, queued, running, completed, failed, cancelled, is_active_status,
}
use cortex_rag.Job.{
  Time, ProcessingJob, is_active, is_terminal, is_phase, start, advance, complete, fail, cancel,
  retry,
}

-- A call of one of the methods that change a job.
pub data Call : Type 0 where
  call_start : Text → Time → Call
  call_advance : ProcessingJobStatus → ℤ → Call
  call_complete : Time → Call
  call_fail : Text → Time → Call
  call_cancel : Time → Call
  call_retry : Call

unfoldable pub run_call : Call → Exec ProcessingJob (Unit {0})
unfolding start advance complete fail cancel retry
run_call (call_start w now) = start w now
run_call (call_advance phase p) = advance phase p
run_call (call_complete now) = complete now
run_call (call_fail m now) = fail m now
run_call (call_cancel now) = cancel now
run_call call_retry = retry

-- The transition diagram of the statuses.
infix 40 ◌⟶◌
pub data ◌⟶◌ : ProcessingJobStatus → ProcessingJobStatus → Type 0 where
  started : queued ⟶ running
  phase_of_running : {p : ProcessingJobStatus} → is_phase p ≡ true → running ⟶ p
  phase_of_phase : {p q : ProcessingJobStatus} → is_phase p ≡ true → is_phase q ≡ true → p ⟶ q
  finished : {s : ProcessingJobStatus} → is_active_status s ≡ true → s ⟶ completed
  gave_up : {s : ProcessingJobStatus} → is_active_status s ≡ true → s ⟶ failed
  stopped : {s : ProcessingJobStatus} → is_active_status s ≡ true → s ⟶ cancelled
  requeued : failed ⟶ queued

-- What a method has done, by how it ended.
abbrev pub StepsOrStays : ProcessingJob → Result (Unit {0}) × ProcessingJob → Type 0
StepsOrStays job (ok _, job') = job.status ⟶ job'.status
StepsOrStays job (err _, job') = job' ≡ job

-- A method that returns has moved the status along an edge of the diagram; one that raises has left
-- the whole job as it was.
pub run_call_step : (c : Call) (job : ProcessingJob) → StepsOrStays job (run_call c job)
unfolding run_call
run_call_step (call_start w now) job =
    grind (arith, started, phase_of_running, phase_of_phase, finished, gave_up, stopped, requeued)
run_call_step (call_advance phase p) job =
    grind (arith, started, phase_of_running, phase_of_phase, finished, gave_up, stopped, requeued)
run_call_step (call_complete now) job = grind (arith, finished)
run_call_step (call_fail m now) job = grind (arith, gave_up)
run_call_step (call_cancel now) job = grind (arith, stopped)
run_call_step call_retry job = grind (arith, requeued)

-- What holds of a job between two calls.
pub record IsValid (job : ProcessingJob) : Type 0 where
  pub progress_bound : job.progress ≤ 100
  pub queued_clean :
      job.status ≡ queued
      → (job.progress ≡ 0)
        × (job.worker_name ≡ none)
        × (job.started_at ≡ none)
        × (job.finished_at ≡ none)
        × (job.error_message ≡ none)
  pub running_owned :
      is_active job ≡ true
      → job.status ≢ queued
      → (is_some job.worker_name ≡ true)
        × (is_some job.started_at ≡ true)
        × (job.finished_at ≡ none)
        × (job.error_message ≡ none)
  pub terminal_finished : is_terminal job ≡ true → is_some job.finished_at ≡ true
  pub completed_full : job.status ≡ completed → (job.progress ≡ 100) × (job.error_message ≡ none)
  pub failed_explained : job.status ≡ failed → is_some job.error_message ≡ true

clamp_bound : (z : ℤ) → clamp 100 z ≤ 100
clamp_bound z = ground arith

-- Every method keeps the invariant, whether it returns or raises.
pub run_call-IsValid : (c : Call) (job : ProcessingJob) → IsValid job → IsValid (run_call c job).1
unfolding run_call
run_call-IsValid (call_start w now) job h = ground arith
run_call-IsValid (call_advance phase p) job h = ground (arith, clamp_bound p)
run_call-IsValid (call_complete now) job h = ground arith
run_call-IsValid (call_fail m now) job h = ground arith
run_call-IsValid (call_cancel now) job h = ground arith
run_call-IsValid call_retry job h = ground arith
