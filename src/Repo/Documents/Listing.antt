-- ===== src/Repo/Documents/Listing.antt =====
-- What a listing of documents holds.
use cortex_rag.Base.{
  ℕ, ◌≤◌, ◌≡◌, refl, ◌⊎◌, inl, inr, Bool, true, ◌&&◌, Option, none, some, List, [], ◌∷◌, map, arith,
  ◌==◌, nat_eq, length, select, is_none, Text, text_eq,
}
use cortex_rag.Exec.{Exception, Result, ok, err}
use cortex_rag.Job.{Uuid, Time}
use cortex_rag.Document.{
  KnowledgeDocumentVersion, KnowledgeDocument, DocumentRow, version_to_entity, doc_to_entity,
}
use cortex_rag.World.{World, Env}
use cortex_rag.Repo.Sql.{sort_desc, page, traverse}
use cortex_rag.Repo.Sql.Laws.{IsDescending}
use cortex_rag.Repo.Sql.Pages.{
  all, all-page, page-IsDescending, length-page_le, IsDescending-of_map,
}
use cortex_rag.Repo.Documents.{is_listed, version_in, is_current_of_some}
use cortex_rag.Repo.Documents

Result-cases {ℓ} :
    {A : Type ℓ} (r : Result A) → ((a : A) × (r ≡ ok a)) ⊎ ((e : Exception) × (r ≡ err e))
Result-cases (ok a) = inl (a, refl)
Result-cases (err e) = inr (e, refl)

-- The time that a document was created.
abbrev pub instant : Option Time → ℕ
instant none = 0
instant (some t) = t

-- A document of the tenant that was not deleted.
abbrev pub is_shown : Text → KnowledgeDocument → Bool
is_shown tenant_id d = d.tenant_id == tenant_id && is_none d.deleted_at

read-document :
    (lower : Text → Text) (row : DocumentRow) (v : Option KnowledgeDocumentVersion)
    (d : KnowledgeDocument)
    → doc_to_entity lower row v ≡ ok d
    → (d.tenant_id ≡ row.tenant_id)
      × (d.deleted_at ≡ row.deleted_at)
      × (d.created_at ≡ some row.created_at)
unfolding doc_to_entity
read-document lower row v d h = ground arith

module _ (env : Env) (tenant_id : Text) (space : Option Uuid)
    (versions : List KnowledgeDocumentVersion) where
  abbrev read_row : DocumentRow → Result KnowledgeDocument
  read_row m = doc_to_entity env.lower m (version_in m.current_version_id versions)

  read-page :
      (rows : List DocumentRow) (ds : List KnowledgeDocument)
      → traverse read_row rows ≡ ok ds
      → all (is_listed tenant_id space) rows ≡ true
      → (all (is_shown tenant_id) ds ≡ true)
        × (length ds ≡ length rows)
        × (map (λ d. instant d.created_at) ds ≡ map (λ r. r.created_at) rows)
  unfolding traverse
  read-page [] ds h own = ground arith
  read-page (r ∷ rows) [] h own = ground arith
  read-page (r ∷ rows) (d ∷ ds) h own = ground (
    arith,
    read-page rows ds,
    read-document env.lower r (version_in r.current_version_id versions) d,
  )

module _ (env : Env) (tenant_id : Text) (space : Option Uuid) (limit offset : ℕ) (w : World) where
  abbrev rows_of_page : List DocumentRow
  rows_of_page =
      page limit offset
        (sort_desc (λ d. d.created_at) (select (is_listed tenant_id space) w.documents))

  nothing_listed :
      (total : ℕ) (ds : List KnowledgeDocument) (e : Exception)
      → traverse version_to_entity (select (is_current_of_some rows_of_page) w.versions) ≡ err e
      → (Documents.list_documents env tenant_id space limit offset w).0 ≡ ok (ds, total)
      → ⊥
  unfolding Documents.list_documents
  nothing_listed total ds e raised h = ground arith

  -- The versions that the page's documents point at were read first.
  list_run :
      (total : ℕ) (ds : List KnowledgeDocument)
      → (Documents.list_documents env tenant_id space limit offset w).0 ≡ ok (ds, total)
      → (versions : List KnowledgeDocumentVersion) × (traverse
            (read_row env tenant_id space versions)
            rows_of_page
          ≡ ok ds)
        × (total ≡ length (select (is_listed tenant_id space) w.documents))
  unfolding Documents.list_documents
  list_run total ds h =
      elim (Result-cases
        (traverse version_to_entity (select (is_current_of_some rows_of_page) w.versions))) [
          | inl (versions, read) ↦ (versions, ground arith, ground arith)
          | inr (e, raised) ↦ elim (nothing_listed total ds e raised h) [ ]
        ]

  -- A listing of a tenant holds only its documents that were not deleted, no more of them than the
  -- limit or than the total, each created no earlier than the one after it; and the total counts all
  -- rows that pass the filters, whatever the page.
  pub list_documents_page :
      (total : ℕ) (ds : List KnowledgeDocument)
      → (Documents.list_documents env tenant_id space limit offset w).0 ≡ ok (ds, total)
      → (all (is_shown tenant_id) ds ≡ true)
        × (length ds ≤ limit)
        × (length ds ≤ total)
        × IsDescending (λ d. instant d.created_at) ds
        × (total ≡ length (select (is_listed tenant_id space) w.documents))
  list_documents_page total ds h =
      let (versions, read, count) = list_run total ds h in
      let passes = is_listed tenant_id space in
      ground (
        arith,
        read-page env tenant_id space versions rows_of_page ds read,
        count,
        all-page passes (λ d. d.created_at) limit offset w.documents,
        length-page_le (λ d. d.created_at) limit offset (select passes w.documents),
        IsDescending-of_map (λ d. instant d.created_at) (λ r. r.created_at) ds rows_of_page,
        page-IsDescending (λ d. d.created_at) limit offset (select passes w.documents),
      )
