-- ===== src/Documents/Manage/Deleted.antt =====
-- What deleting a document leaves.
use cortex_rag.Base.{
  ℕ, ◌≤◌, ◌≡◌, inl, inr, true, false, none, some, arith, Option-cases, length, select, select_first,
  Text,
}
use cortex_rag.Base.Lists.{select_first_sound}
use cortex_rag.Job.{Uuid, Time}
use cortex_rag.Status.{deleted}
use cortex_rag.Repo.Documents.{by_id, is_live, write_document}
use cortex_rag.Repo.Sql.{update_first}
use cortex_rag.Repo.Sql.Laws.{select_first-update_first-none}
use cortex_rag.Repo.Documents.Laws.{get_keeps}
use cortex_rag.Exec.{ok}
use cortex_rag.World.{World, Action, Env}
use cortex_rag.Document.{KnowledgeDocument, DocumentRow, doc_to_entity}
use cortex_rag.Documents.Manage.{delete_document}
use cortex_rag.Chat.Answer.{semantic_search}
use cortex_rag.Repo.Documents

module _ (env : Env) (tenant_id : Text) (document_id : Uuid) where
  entity_of_row :
      (w : World) (row : DocumentRow) (d : KnowledgeDocument)
      → is_live tenant_id document_id row ≡ true
      → (Documents.with_version env (some row) w).0 ≡ ok (some d)
      → (d.id ≡ document_id) × (d.tenant_id ≡ tenant_id)
  unfolding Documents.with_version doc_to_entity
  entity_of_row w row d live h = ground arith

  -- A document that a tenant gets by its id has that id and is of that tenant.
  pub get_identity :
      (w : World) (d : KnowledgeDocument)
      → (Documents.get env tenant_id document_id w).0 ≡ ok (some d)
      → (d.id ≡ document_id) × (d.tenant_id ≡ tenant_id)
  unfolding Documents.get Documents.with_version
  get_identity w d h =
      elim (Option-cases (select_first (is_live tenant_id document_id) w.documents)) [
        | inl missing ↦ ground arith
        | inr (row, found) ↦ ground (
          arith,
          entity_of_row w row d
              (select_first_sound (is_live tenant_id document_id) w.documents row found),
        )
      ]

  nothing_got :
      (w : World) (d : KnowledgeDocument)
      → select_first (is_live tenant_id document_id) w.documents ≡ none
      → (Documents.get env tenant_id document_id w).0 ≡ ok (some d)
      → ⊥
  unfolding Documents.get Documents.with_version
  nothing_got w d missing read = ground arith

  -- What the deletion writes over the rows of the table.
  abbrev deletion_of : Time → KnowledgeDocument → DocumentRow → DocumentRow
  deletion_of now d = write_document env (record d { status = deleted; deleted_at = some now })

  deletion_hides :
      (now : Time) (d : KnowledgeDocument) (row : DocumentRow)
      → d.tenant_id ≡ tenant_id
      → is_live tenant_id document_id row ≡ true
      → is_live tenant_id document_id (deletion_of now d row) ≡ false
  deletion_hides now d row same live = ground arith

  delete_run :
      (w : World) (d : KnowledgeDocument)
      → (Documents.get env tenant_id document_id w).0 ≡ ok (some d)
      → let after =
          (delete_document env (record { tenant_id = tenant_id; document_id = document_id }) w).1 in
        (after.documents
          ≡ update_first (by_id d.id) (deletion_of (env.now w.readings) d) w.documents)
        × (after.versions ≡ w.versions)
        × (after.jobs ≡ w.jobs)
        × (after.saved ≡ w.saved)
        × (after.vector_calls ≡ w.vector_calls)
  unfolding delete_document
  delete_run w d h = ground (arith, get_keeps env tenant_id document_id w)

  abbrev delete_it : Action (Unit {0})
  delete_it = delete_document env (record { tenant_id = tenant_id; document_id = document_id })

  module _ (w : World) (d : KnowledgeDocument) (row : DocumentRow)
      (one_row : length (select (by_id document_id) w.documents) ≤ 1)
      (read : (Documents.get env tenant_id document_id w).0 ≡ ok (some d))
      (found : select_first (is_live tenant_id document_id) w.documents ≡ some row) where
    row_is_gone : select_first (is_live tenant_id document_id) (delete_it w).1.documents ≡ none
    row_is_gone =
        let (same_id, same_tenant) = get_identity w d read in
        let live = is_live tenant_id document_id in
        rw (delete_run w d read).0 (
          rw same_id (
            select_first-update_first-none (by_id document_id) live
              (deletion_of (env.now w.readings) d) w.documents row (λ x h. ground arith)
              (λ x h. deletion_hides (env.now w.readings) d x same_tenant h) one_row found))

  -- Where at most one row has the id and the tenant gets the document, deleting it returns, and
  -- after it the tenant has no live document of that id; the versions and the stored files are kept.
  pub deleted_is_gone :
      (w : World) (d : KnowledgeDocument)
      → length (select (by_id document_id) w.documents) ≤ 1
      → (Documents.get env tenant_id document_id w).0 ≡ ok (some d)
      → ((delete_it w).0 ≡ ok tt)
        × (select_first (is_live tenant_id document_id) (delete_it w).1.documents ≡ none)
        × ((delete_it w).1.versions ≡ w.versions)
        × ((delete_it w).1.saved ≡ w.saved)
  unfolding delete_document
  deleted_is_gone w d one read =
      let (docs, vers, jobs, saved, vectors) = delete_run w d read in
      (
        ground (arith, get_keeps env tenant_id document_id w),
        elim (Option-cases (select_first (is_live tenant_id document_id) w.documents)) [
          | inl missing ↦ elim (nothing_got w d missing read) [ ]
          | inr (row, found) ↦ row_is_gone w d row one read found
        ],
        vers,
        saved,
      )

  -- Deleting a document takes nothing out of the vector store: what a semantic search gives is the
  -- same after the deletion as before it, for any tenant, query and limit.
  pub deleted_is_still_searched :
      (w : World) (d : KnowledgeDocument)
      → (Documents.get env tenant_id document_id w).0 ≡ ok (some d)
      → (other_tenant query : Text) (top_k : ℕ)
      → (semantic_search env other_tenant query top_k (delete_it w).1).0
        ≡ (semantic_search env other_tenant query top_k w).0
  unfolding semantic_search
  deleted_is_still_searched w d read other_tenant query top_k =
      let (docs, vers, jobs, saved, vectors) = delete_run w d read in ground (arith, vectors)
