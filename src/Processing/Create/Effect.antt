-- ===== src/Processing/Create/Effect.antt =====
-- What a job that was created leaves behind.
use cortex_rag.Base.{◌+◌, ◌≡◌, false, [], ◌∷◌, ◌++◌, arith}
use cortex_rag.Exec.{ok}
use cortex_rag.Job.{job_type_value}
use cortex_rag.World.{World, Env, publish, draw_uuid, read_clock, enqueue_job}
use cortex_rag.Settings.{ProcessingSettings}
use cortex_rag.Events.{processing_job_created}
use cortex_rag.Repo.Sql.{exists}
use cortex_rag.Processing.Create.{
  JobView, from_entity, CreateProcessingJobInput, new_job, create_processing_job,
}
use cortex_rag.Repo.Jobs

module _ (env : Env) (settings : ProcessingSettings) (input : CreateProcessingJobInput) (w : World)
    {view : JobView} (created : (create_processing_job env settings input w).0 ≡ ok view) where
  -- Where a job was created: the view is that of the queued job with the next UUID; its row, one
  -- event and one message have been added at the end, and no other table, file or vector has changed.
  pub create_effect :
      let job = new_job settings input (env.uuid4 w.draws) (env.now w.readings) in
      let after = (create_processing_job env settings input w).1 in
      (view ≡ from_entity job)
      × (after ≡ record w {
        db = record w.db { jobs = w.jobs ++ (Jobs.to_model w.server_now job ∷ []) };
        draws = w.draws + 1;
        readings = w.readings + 1;
        published =
            w.published
            ++ (processing_job_created job.id job.document_id job.tenant_id
                  (job_type_value job.job_type)
                ∷ []);
        enqueued = w.enqueued ++ ((job.tenant_id, job.id) ∷ []);
      })
  unfolding create_processing_job
  create_effect = ground arith

  -- The new job's id had no row.
  pub create_fresh : exists (Jobs.by_id (env.uuid4 w.draws)) w.jobs ≡ false
  unfolding create_processing_job
  create_fresh = ground arith

-- Whether or not it succeeds, creating a job changes no document, no version, no conversation, no
-- message, no file and no vector.
pub create_keeps :
    (env : Env) (settings : ProcessingSettings) (input : CreateProcessingJobInput) (w : World)
    → let after = (create_processing_job env settings input w).1 in
      (after.documents ≡ w.documents)
      × (after.versions ≡ w.versions)
      × (after.conversations ≡ w.conversations)
      × (after.messages ≡ w.messages)
      × (after.saved ≡ w.saved)
      × (after.vector_calls ≡ w.vector_calls)
unfolding create_processing_job Jobs.add enqueue_job Jobs.get_active_by_type publish draw_uuid
    read_clock
create_keeps env settings input w = ground arith
