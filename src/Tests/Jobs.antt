-- ===== src/Tests/Jobs.antt =====
-- The life of a job.
use cortex_rag.Base.{
  ◌+◌, ◌≤◌, ◌≡◌, refl, true, none, some, List, [], ◌∷◌, arith, nat_eq, pos, text, text_eq,
}
use cortex_rag.Base.Str.{contains}
use cortex_rag.Exec.{Exception, value_error, ok, err}
use cortex_rag.Status.{failed, queued, completed, job_status_from}
use cortex_rag.Job.{document_ingestion, job_type_value, job_type_from, ProcessingJob}
use cortex_rag.Job.Lifecycle.{
  Call, call_start, call_fail, call_retry, run_call, StepsOrStays, run_call_step, IsValid,
  run_call-IsValid,
}
use cortex_rag.Job.Traces.{run_calls, count_fails, failures, retry_count-le-fails}
use cortex_rag.World.{JobRow, World, publish, draw_uuid, read_clock, enqueue_job}
use cortex_rag.Repo.Sql.{exists, insert_desc, sort_desc, traverse}
use cortex_rag.Processing.Create.{JobView, from_entity, new_job, create_processing_job}
use cortex_rag.Processing.Slots.{IsExclusive, create-IsExclusive}
use cortex_rag.Worker.Executor.{Run, Worker, get_worker, begin, execute}
use cortex_rag.Worker.Executor.Outcome.{begun, Settles, execute-Settles}
use cortex_rag.Worker.Executor.Retries.{attempts, attempts_exhausted}
use cortex_rag.Worker.Consumer.{handle_message}
use cortex_rag.Worker.Consumer.Delivery.{redelivery, early_delivery_is_lost}
use cortex_rag.Tests.Data.{tenant, env, empty_world, processing_settings, queued_job, job_input}
use cortex_rag.Session.{in_session}
use cortex_rag.Repo.Jobs

run_call_step_example : StepsOrStays queued_job (run_call (call_start (text "w") 3) queued_job)
run_call_step_example = run_call_step (call_start (text "w") 3) queued_job

queued_job-IsValid : IsValid queued_job
queued_job-IsValid = ground arith

run_call-IsValid_example : IsValid (run_call (call_start (text "w") 3) queued_job).1
run_call-IsValid_example = run_call-IsValid (call_start (text "w") 3) queued_job queued_job-IsValid

abbrev done_job : ProcessingJob
done_job = record queued_job { status = completed }

abbrev some_calls : List Call
some_calls =
    call_start (text "w") 3 ∷ call_fail (text "no") 4 ∷ call_retry ∷ call_start (text "w") 5 ∷ []

retry_count-le-fails_example :
    (run_calls some_calls queued_job 0).0.retry_count ≤ failures queued_job + count_fails some_calls
retry_count-le-fails_example = retry_count-le-fails some_calls queued_job 0

abbrev view : JobView
view = from_entity (new_job processing_settings job_input 100 1000)

create_ok : (create_processing_job env processing_settings job_input empty_world).0 ≡ ok view
unfolding create_processing_job Jobs.get_active_by_type Jobs.add exists publish draw_uuid read_clock
    enqueue_job text_eq nat_eq
create_ok = refl

-- The table after that.
abbrev after_create : World
after_create = record empty_world {
  db = record empty_world.db {
    jobs = Jobs.to_model 7 (new_job processing_settings job_input 100 1000) ∷ [];
  };
}

nothing_held : IsExclusive []
nothing_held = record { at_slot = λ d t. omega arith }

create-IsExclusive_example :
    IsExclusive (create_processing_job env processing_settings job_input empty_world).1.jobs
create-IsExclusive_example =
    create-IsExclusive env processing_settings job_input empty_world nothing_held

slot_is_taken :
    exists
      (Jobs.holds_slot job_input.document_id (job_type_value job_input.job_type))
      after_create.jobs
    ≡ true
unfolding exists Jobs.to_model Jobs.is_active_value Jobs.active_values contains text_eq nat_eq
slot_is_taken = refl

-- A worker that fails, and one that does nothing.
abbrev failing : Worker
failing = record {
  job_type = document_ingestion;
  name = text "W";
  run = λ r. (err (value_error (text "no")), r);
}

abbrev run : Run
run = record { job = queued_job; world = empty_world }

found : get_worker document_ingestion (failing ∷ []) ≡ some failing
unfolding get_worker text_eq
found = refl

abbrev failed_run : Run
failed_run = (begin env failing run).1

execute-Settles_example :
    Settles env
      (pos 2)
      (err (value_error (text "no")))
      failed_run
      (begun (text "W") 1000 queued_job)
      (execute env (pos 2) (failing ∷ []) run).1
execute-Settles_example =
    execute-Settles env (pos 2) (failing ∷ []) failing run found refl (λ r. refl)

attempts_exhausted_example :
    ((attempts env (failing ∷ []) (pos 2) 2 run).job.status ≡ queued)
    × ((attempts env (failing ∷ []) (pos 2) 3 run).job.status ≡ failed)
    × ((attempts env (failing ∷ []) (pos 2) 3 run).job.retry_count ≡ 2)
attempts_exhausted_example =
    attempts_exhausted env (failing ∷ []) failing (λ r. refl) (λ r. (value_error (text "no"), refl))
      2 run found refl refl

abbrev finished_row : JobRow
finished_row = Jobs.to_model 7 done_job

abbrev after_job : World
after_job = record empty_world { db = record empty_world.db { jobs = finished_row ∷ [] } }

got_done : (Jobs.get tenant 11 after_job).0 ≡ ok (some done_job)
unfolding Jobs.get Jobs.to_model Jobs.to_entity job_type_from job_status_from text_eq nat_eq
got_done = refl

redelivery_example :
    handle_message env processing_settings [] tenant 11 after_job ≡ (ok tt, after_job)
redelivery_example = redelivery env processing_settings [] after_job tenant 11 got_done refl

-- A job whose row has a status that is none.
abbrev broken : World
broken = record empty_world {
  db = record empty_world.db { jobs = record finished_row { status = text "LOST" } ∷ [] };
}

abbrev broken_error : Exception
broken_error = value_error (text "'LOST' is not a valid ProcessingJobStatus")

broken_raises : (handle_message env processing_settings [] tenant 11 broken).0 ≡ err broken_error
unfolding handle_message Jobs.get Jobs.to_model Jobs.to_entity job_type_from job_status_from text_eq
    nat_eq
broken_raises = refl

early_delivery_is_lost_example :
    let after =
      (in_session (create_processing_job env processing_settings job_input) empty_world).1 in
    (after.enqueued ≡ (tenant, view.id) ∷ [])
    × (handle_message env processing_settings [] tenant view.id empty_world ≡ (ok tt, empty_world))
    × ((row : JobRow) × (after.jobs ≡ row ∷ [])
        × (row.id ≡ view.id)
        × (row.tenant_id ≡ tenant)
        × (row.status ≡ text "queued"))
early_delivery_is_lost_example =
    early_delivery_is_lost env processing_settings [] empty_world job_input create_ok

jobs_listed : (Jobs.list_jobs tenant none (some completed) 10 0 after_job).0 ≡ ok (done_job ∷ [], 1)
unfolding Jobs.list_jobs Jobs.to_model Jobs.to_entity sort_desc insert_desc traverse job_type_from
    job_status_from text_eq nat_eq
jobs_listed = refl
