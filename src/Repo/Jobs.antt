-- ===== src/Repo/Jobs.antt =====
-- `SqlAlchemyProcessingJobRepository` (processing_job_repository.py).
pub mod Laws
pub mod Dictionary
use cortex_rag.Base.{
  ℕ, Bool, true, ◌&&◌, Option, none, some, List, [], ◌∷◌, ◌++◌, map, ◌==◌, nat_eq, length, select,
  select_first, Text, text_eq,
}
use cortex_rag.Base.Str.{contains}
use cortex_rag.Exec.{
  integrity_error, Result, ok, and_then, pure, lift, gets, ◌>>=◌, ◌>>◌, modify, raise_if,
}
use cortex_rag.Status.{
  ProcessingJobStatus, queued, running, parsing, rendering, normalizing, embedding, indexing,
  job_status_value, job_status_from,
}
use cortex_rag.Job.{JobType, job_type_value, job_type_from, Uuid, Time, ProcessingJob}
use cortex_rag.World.{JobRow, World, Action, Env}
use cortex_rag.Repo.Sql.{exists, update_first, sort_desc, page, traverse}

-- `_to_entity`
unfoldable pub to_entity : JobRow → Result ProcessingJob
to_entity model = and_then (job_type_from model.job_type) (λ job_type.
    and_then (job_status_from model.status) (λ status. ok (record {
      id = model.id;
      document_id = model.document_id;
      tenant_id = model.tenant_id;
      job_type = job_type;
      status = status;
      version_id = model.version_id;
      priority = model.priority;
      retry_count = model.retry_count;
      progress = model.progress;
      worker_name = model.worker_name;
      error_message = model.error_message;
      started_at = model.started_at;
      finished_at = model.finished_at;
      created_at = some model.created_at;
      updated_at = some model.updated_at;
    })))

-- `_to_model`; the server's `now()` fills the two times.
unfoldable pub to_model : Time → ProcessingJob → JobRow
to_model server_now entity = record {
  id = entity.id;
  document_id = entity.document_id;
  version_id = entity.version_id;
  tenant_id = entity.tenant_id;
  job_type = job_type_value entity.job_type;
  status = job_status_value entity.status;
  priority = entity.priority;
  retry_count = entity.retry_count;
  progress = entity.progress;
  worker_name = entity.worker_name;
  error_message = entity.error_message;
  started_at = entity.started_at;
  finished_at = entity.finished_at;
  created_at = server_now;
  updated_at = server_now;
}

abbrev pub by_id : Uuid → JobRow → Bool
by_id job_id j = j.id == job_id

abbrev pub is_owned : Text → Uuid → JobRow → Bool
is_owned tenant_id job_id j = j.id == job_id && j.tenant_id == tenant_id

-- `ProcessingJobModel.status.in_([str(s) for s in ACTIVE_JOB_STATUSES])`
unfoldable pub active_values : List Text
active_values = map job_status_value (
    queued ∷ running ∷ parsing ∷ rendering ∷ normalizing ∷ ProcessingJobStatus.chunking ∷ embedding
    ∷ indexing ∷ [])

unfoldable pub is_active_value : Text → Bool
unfolding contains active_values
is_active_value s = contains active_values s

-- The condition of `get_active_by_type`: of the document and type, and active.
abbrev pub holds_slot : Uuid → Text → JobRow → Bool
holds_slot document_id job_type j =
    j.document_id == document_id && j.job_type == job_type && is_active_value j.status

-- The filters of `list_jobs`.
abbrev pub is_listed : Text → Option Uuid → Option ProcessingJobStatus → JobRow → Bool
is_listed tenant_id document_id status j =
    j.tenant_id == tenant_id
    && elim document_id [ none ↦ true | some d ↦ j.document_id == d ]
    && elim status [ none ↦ true | some s ↦ j.status == job_status_value s ]

abbrev pub set_jobs : (List JobRow → List JobRow) → World → World
set_jobs f w = record w { db = record w.db { jobs = f w.jobs } }

-- `_to_entity(model) if model is not None else None`
abbrev pub optional_entity : Option JobRow → Result (Option ProcessingJob)
optional_entity none = ok none
optional_entity (some model) = and_then (to_entity model) (λ j. ok (some j))

module _ (env : Env) where
  unfoldable pub add : ProcessingJob → Action (Unit {0})
  unfolding exists
  add job = do
    clash ← gets (λ w. exists (by_id job.id) w.jobs)
    raise_if clash (integrity_error env.duplicate_key)
    modify (λ w. set_jobs (λ js. js ++ (to_model w.server_now job ∷ [])) w)

  abbrev pub write_job : ProcessingJob → JobRow → JobRow
  write_job job j =
      let new = record j {
        status = job_status_value job.status;
        priority = job.priority;
        retry_count = job.retry_count;
        progress = job.progress;
        worker_name = job.worker_name;
        error_message = job.error_message;
        started_at = job.started_at;
        finished_at = job.finished_at;
      } in
      record new { updated_at = env.job_updated_at j new }

  unfoldable pub update : ProcessingJob → Action (Unit {0})
  unfolding update_first
  update job = modify (set_jobs (update_first (by_id job.id) (write_job job)))

unfoldable pub get : Text → Uuid → Action (Option ProcessingJob)
get tenant_id job_id = do
  model ← gets (λ w. select_first (is_owned tenant_id job_id) w.jobs)
  lift (optional_entity model)

unfoldable pub get_active_by_type : Uuid → JobType → Action (Option ProcessingJob)
get_active_by_type document_id job_type = do
  model ← gets (λ w. select_first (holds_slot document_id (job_type_value job_type)) w.jobs)
  lift (optional_entity model)

unfoldable pub list_jobs :
    Text → Option Uuid → Option ProcessingJobStatus → ℕ → ℕ → Action (List ProcessingJob × ℕ)
unfolding sort_desc traverse
list_jobs tenant_id document_id status limit offset = do
  listed ← gets (λ w. select (is_listed tenant_id document_id status) w.jobs)
  items ← lift (traverse to_entity (page limit offset (sort_desc (λ j. j.created_at) listed)))
  pure (items, length listed)
