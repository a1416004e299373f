-- ===== src/Worker/Consumer/Delivery.antt =====
-- What the consumer does with messages that are late, early, or of a run that raises.
use cortex_rag.Base.{
  ◌≡◌, refl, ap, Bool, true, not, Option, none, some, List, [], ◌∷◌, ◌++◌, arith, Text, text,
}
use cortex_rag.Repo.Jobs.{by_id, is_owned}
use cortex_rag.Exec.{Exception, ok, err}
use cortex_rag.Status.{is_queued}
use cortex_rag.Job.{Uuid, ProcessingJob}
use cortex_rag.World.{JobRow, World, Env}
use cortex_rag.Settings.{ProcessingSettings}
use cortex_rag.Repo.Sql.Laws.{select_first_of_exists, exists-weaken}
use cortex_rag.Processing.Create.{
  JobView, from_entity, CreateProcessingJobInput, new_job, create_processing_job,
}
use cortex_rag.Processing.Create.Effect.{create_effect, create_fresh}
use cortex_rag.Worker.Executor.{Worker}
use cortex_rag.Worker.Consumer.{handle_message}
use cortex_rag.Session.{in_session}
use cortex_rag.Repo.Jobs

-- A job that the consumer leaves alone.
abbrev pub is_left : Option ProcessingJob → Bool
is_left none = true
is_left (some job) = not (is_queued job.status)

module _ (env : Env) (settings : ProcessingSettings) (registry : List Worker) (w : World) where
  -- A message for a job that is not there, or that is not queued any more, is acknowledged and has no
  -- effect: nothing in the world changes.
  pub redelivery :
      (tenant_id : Text) (job_id : Uuid) {found : Option ProcessingJob}
      → (Jobs.get tenant_id job_id w).0 ≡ ok found
      → is_left found ≡ true
      → handle_message env settings registry tenant_id job_id w ≡ (ok tt, w)
  unfolding handle_message Jobs.get
  redelivery tenant_id job_id h left = ground arith

  -- Where handling a message raises, every table is as it was before the message.
  pub raised_rolls_back :
      (tenant_id : Text) (job_id : Uuid) {exc : Exception}
      → (handle_message env settings registry tenant_id job_id w).0 ≡ err exc
      → (handle_message env settings registry tenant_id job_id w).1.db ≡ w.db
  unfolding handle_message
  raised_rolls_back tenant_id job_id h = ground arith

  -- The job is put in the broker before its transaction commits. Where creating a job returns, one
  -- message that names it was added to the queue; a consumer that takes the message while the tables
  -- are still as they were before the call finds no job, acknowledges the message and changes nothing;
  -- and the session commits a row with that id and tenant whose status is queued.
  pub early_delivery_is_lost :
      (input : CreateProcessingJobInput) {view : JobView}
      → (create_processing_job env settings input w).0 ≡ ok view
      → let after = (in_session (create_processing_job env settings input) w).1 in
        (after.enqueued ≡ w.enqueued ++ ((input.tenant_id, view.id) ∷ []))
        × (handle_message env settings registry input.tenant_id view.id w ≡ (ok tt, w))
        × ((row : JobRow) × (after.jobs ≡ w.jobs ++ (row ∷ []))
            × (row.id ≡ view.id)
            × (row.tenant_id ≡ input.tenant_id)
            × (row.status ≡ text "queued"))
  unfolding handle_message Jobs.get from_entity Jobs.to_model
  early_delivery_is_lost input h =
      let (seen, after) = create_effect env settings input w h in
      let committed : in_session (create_processing_job env settings input) w
          ≡ create_processing_job env settings input w =
        ground arith in
      rw (seen, committed)
        (
          ap (λ s. s.enqueued) after,
          ground (
            arith,
            select_first_of_exists (is_owned input.tenant_id (env.uuid4 w.draws)) w.jobs,
            exists-weaken (by_id (env.uuid4 w.draws)) (is_owned input.tenant_id (env.uuid4 w.draws))
                w.jobs (λ j t. ground arith),
            create_fresh env settings input w h,
          ),
          (
            Jobs.to_model w.server_now
                (new_job settings input (env.uuid4 w.draws) (env.now w.readings)),
            ap (λ s. s.jobs) after,
            refl,
            refl,
            refl,
          ),
        )
