-- ===== src/Processing/Slots.antt =====
-- One active job for each document and job type.
use cortex_rag.Base.{
  ◌≤◌, ◌≡◌, ◌⊎◌, inl, inr, true, false, none, List, [], ◌∷◌, ◌++◌, arith, length, select,
  select_first, Text,
}
use cortex_rag.Base.Lists.{length-append, select-append}
use cortex_rag.Exec.{is_ok}
use cortex_rag.Job.{job_type_value, Uuid, ProcessingJob}
use cortex_rag.World.{JobRow, World, Env}
use cortex_rag.Settings.{ProcessingSettings}
use cortex_rag.Repo.Sql.{exists}
use cortex_rag.Repo.Sql.Laws.{exists_of_select_first, select-eq-nil}
use cortex_rag.Repo.Jobs.{holds_slot}
use cortex_rag.Processing.Create.{CreateProcessingJobInput, new_job, create_processing_job}
use cortex_rag.Repo.Jobs

abbrev pub holders : Uuid → Text → List JobRow → List JobRow
holders document_id job_type jobs = select (holds_slot document_id job_type) jobs

-- No document has two active jobs of one type.
pub record IsExclusive (jobs : List JobRow) : Type 0 where
  pub at_slot :
      (document_id : Uuid) (job_type : Text) → length (holders document_id job_type jobs) ≤ 1

holders-append :
    (e : Uuid) (t : Text) (jobs : List JobRow) (row : JobRow)
    → length (holders e t jobs) ≤ 1
    → holders row.document_id row.job_type jobs ≡ []
    → length (holders e t (jobs ++ (row ∷ []))) ≤ 1
holders-append e t jobs row h free = ground (
  arith,
  select-append (holds_slot e t) jobs (row ∷ []),
  length-append (holders e t jobs) (select (holds_slot e t) (row ∷ [])),
)

append-IsExclusive :
    (jobs : List JobRow) (row : JobRow)
    → IsExclusive jobs
    → select_first (holds_slot row.document_id row.job_type) jobs ≡ none
    → IsExclusive (jobs ++ (row ∷ []))
append-IsExclusive jobs row h free = record {
  at_slot = λ e t.
      holders-append e t jobs row (h.at_slot e t)
        (select-eq-nil (holds_slot row.document_id row.job_type) jobs free);
}

-- What creating a job does to the table: nothing, or it appends the new job's row, and that only
-- where the slot was free.
module _ (env : Env) (settings : ProcessingSettings) (input : CreateProcessingJobInput)
    (w : World) where
  abbrev pub created : ProcessingJob
  created = new_job settings input (env.uuid4 w.draws) (env.now w.readings)

  pub create_jobs :
      let after = (create_processing_job env settings input w).1 in
      (after.jobs ≡ w.jobs)
      ⊎ ((after.jobs ≡ w.jobs ++ (Jobs.to_model w.server_now created ∷ []))
          × (select_first (holds_slot input.document_id (job_type_value input.job_type)) w.jobs
              ≡ none))
  unfolding create_processing_job
  create_jobs = ground arith

  -- Creating a job, whether it returns or raises, keeps at most one active job for each document
  -- and type.
  pub create-IsExclusive :
      IsExclusive w.jobs → IsExclusive (create_processing_job env settings input w).1.jobs
  create-IsExclusive h = elim create_jobs [
    | inl same ↦ rw same h
    | inr (more, free) ↦ rw more (
        append-IsExclusive w.jobs (Jobs.to_model w.server_now created) h
          (unfold Jobs.to_model in free))
  ]

  -- While the slot is taken, creating a job raises and changes nothing at all.
  pub create_when_taken :
      exists (holds_slot input.document_id (job_type_value input.job_type)) w.jobs ≡ true
      → (is_ok (create_processing_job env settings input w).0 ≡ false)
        × ((create_processing_job env settings input w).1 ≡ w)
  unfolding create_processing_job
  create_when_taken h = ground (
    arith,
    exists_of_select_first (holds_slot input.document_id (job_type_value input.job_type)) w.jobs,
  )
