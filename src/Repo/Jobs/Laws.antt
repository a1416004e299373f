-- ===== src/Repo/Jobs/Laws.antt =====
-- What the jobs' rows read back as, and what a listing holds.
use cortex_rag.Base.{
  ℕ, ◌≤◌, ◌≡◌, Bool, true, Option, none, some, List, [], ◌∷◌, map, arith, ◌==◌, nat_eq, length,
  select, Text, text_eq,
}
use cortex_rag.Exec.{ok}
use cortex_rag.Status.{ProcessingJobStatus, job_status_from-value}
use cortex_rag.Job.{job_type_from-value, Uuid, Time, ProcessingJob}
use cortex_rag.World.{JobRow, World}
use cortex_rag.Repo.Sql.{sort_desc, page, traverse}
use cortex_rag.Repo.Sql.Laws.{IsDescending}
use cortex_rag.Repo.Sql.Pages.{
  all, all-page, page-IsDescending, length-page_le, IsDescending-of_map,
}
use cortex_rag.Repo.Jobs.{to_entity, to_model, is_listed}
use cortex_rag.Repo.Jobs

-- A job reads back from its row as it was stored, with the server's times.
pub to_entity-to_model :
    (now : Time) (job : ProcessingJob)
    → to_entity (to_model now job)
      ≡ ok (record job { created_at = some now; updated_at = some now })
unfolding to_entity to_model
to_entity-to_model now job = rw (job_type_from-value job.job_type, job_status_from-value job.status)

-- What a job that was read shares with its row.
read-job :
    (row : JobRow) (job : ProcessingJob)
    → to_entity row ≡ ok job
    → (job.tenant_id ≡ row.tenant_id) × (job.created_at ≡ some row.created_at)
unfolding to_entity
read-job row job h = ground arith

-- The time that a job was created.
abbrev pub instant : Option Time → ℕ
instant none = 0
instant (some t) = t

abbrev pub is_of : Text → ProcessingJob → Bool
is_of tenant_id job = job.tenant_id == tenant_id

read-page :
    (tenant_id : Text) (document_id : Option Uuid) (status : Option ProcessingJobStatus)
    (rows : List JobRow) (jobs : List ProcessingJob)
    → traverse to_entity rows ≡ ok jobs
    → all (is_listed tenant_id document_id status) rows ≡ true
    → (all (is_of tenant_id) jobs ≡ true)
      × (length jobs ≡ length rows)
      × (map (λ j. instant j.created_at) jobs ≡ map (λ r. r.created_at) rows)
unfolding traverse
read-page tenant_id document_id status [] jobs h own = ground arith
read-page tenant_id document_id status (r ∷ rows) [] h own = ground arith
read-page tenant_id document_id status (r ∷ rows) (j ∷ jobs) h own =
    ground (arith, read-page tenant_id document_id status rows jobs, read-job r j)

-- A listing holds jobs of the tenant only, no more of them than the limit or than the total, each
-- created no earlier than the one after it; and the total counts all rows that pass the filters,
-- whatever the page.
pub list_jobs_page :
    (tenant_id : Text) (document_id : Option Uuid) (status : Option ProcessingJobStatus)
    (limit offset total : ℕ) (jobs : List ProcessingJob) (w : World)
    → (Jobs.list_jobs tenant_id document_id status limit offset w).0 ≡ ok (jobs, total)
    → (all (is_of tenant_id) jobs ≡ true)
      × (length jobs ≤ limit)
      × (length jobs ≤ total)
      × IsDescending (λ j. instant j.created_at) jobs
      × (total ≡ length (select (is_listed tenant_id document_id status) w.jobs))
unfolding Jobs.list_jobs
list_jobs_page tenant_id document_id status limit offset total jobs w h =
    let passes = is_listed tenant_id document_id status in
    let rows = page limit offset (sort_desc (λ j. j.created_at) (select passes w.jobs)) in
    ground (
      arith,
      read-page tenant_id document_id status rows jobs,
      all-page passes (λ j. j.created_at) limit offset w.jobs,
      length-page_le (λ j. j.created_at) limit offset (select passes w.jobs),
      IsDescending-of_map (λ j. instant j.created_at) (λ r. r.created_at) jobs rows,
      page-IsDescending (λ j. j.created_at) limit offset (select passes w.jobs),
    )
