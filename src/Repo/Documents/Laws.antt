-- ===== src/Repo/Documents/Laws.antt =====
-- What reading a document with its version gives.
use mathlib.Core.List.{Perm}
use mathlib.Core.List.Perm
use cortex_rag.Base.{
  ◌≡◌, refl, ◌∙◌, some, List, [], ◌∷◌, map, arith, ◌==◌, nat_eq, select, select_first, Text,
  text_eq,
}
use cortex_rag.Exec.{ok}
use cortex_rag.Job.{Uuid, Time}
use cortex_rag.Metadata.{validate_metadata}
use cortex_rag.Document.{
  KnowledgeDocumentVersion, KnowledgeDocument, DocumentRow, VersionRow, version_to_entity,
  version_to_model, doc_to_entity, doc_to_model,
}
use cortex_rag.Document.Mapping.{version_to_entity-version_to_model, doc_to_entity-doc_to_model}
use cortex_rag.World.{World, Env}
use cortex_rag.Repo.Documents.{owns, load_version, with_version}
use cortex_rag.Repo.Sql.{sort_desc, traverse}
use cortex_rag.Repo.Sql.Laws.{IsDescending, sort_desc-IsDescending, sort_desc-Perm}
use cortex_rag.Repo.Sql.Pages.{IsDescending-of_map}
use cortex_rag.Repo.Documents

current_version_id-doc_to_model :
    (now : Time) (d : KnowledgeDocument)
    → (doc_to_model now d).current_version_id ≡ d.current_version_id
unfolding doc_to_model
current_version_id-doc_to_model now d = refl

with_version_reads :
    (env : Env) (model : DocumentRow) (version : VersionRow) (w : World) {i : Uuid}
    {v : KnowledgeDocumentVersion} {d : KnowledgeDocument}
    → model.current_version_id ≡ some i
    → select_first (λ u. u.id == i) w.versions ≡ some version
    → version_to_entity version ≡ ok v
    → doc_to_entity env.lower model (some v) ≡ ok d
    → with_version env (some model) w ≡ (ok (some d), w)
unfolding with_version load_version
with_version_reads env model version w points found v_read d_read = ground arith

-- A document's row reads back with the version that it points to, where that version has its row.
pub with_version-doc_to_model :
    (env : Env) (now : Time) (d : KnowledgeDocument) (v : KnowledgeDocumentVersion) (w : World)
    → d.current_version_id ≡ some v.id
    → select_first (λ u. u.id == v.id) w.versions ≡ some (version_to_model now v)
    → validate_metadata env.lower d.metadata ≡ ok d.metadata
    → with_version env (some (doc_to_model now d)) w ≡ (
      ok (
          some (record d {
            created_at = some now;
            updated_at = some now;
            active_version = some (record v { created_at = some now });
          })),
      w,
    )
with_version-doc_to_model env now d v w points found valid =
    with_version_reads env (doc_to_model now d) (version_to_model now v) w
      (current_version_id-doc_to_model now d ∙ points) found
      (version_to_entity-version_to_model now v)
      (doc_to_entity-doc_to_model env.lower now d (some (record v { created_at = some now })) valid)

-- Reading a document changes nothing.
pub get_keeps :
    (env : Env) (tenant_id : Text) (document_id : Uuid) (w : World)
    → (Documents.get env tenant_id document_id w).1 ≡ w
unfolding Documents.get with_version load_version
get_keeps env tenant_id document_id w = ground arith

-- Listing the versions changes nothing.
pub list_versions_keeps :
    (document_id : Uuid) (w : World) → (Documents.list_versions document_id w).1 ≡ w
unfolding Documents.list_versions
list_versions_keeps document_id w = refl

traverse_numbers :
    (models : List VersionRow) (vs : List KnowledgeDocumentVersion)
    → traverse version_to_entity models ≡ ok vs
    → map (λ v. v.version_number) vs ≡ map (λ v. v.version_number) models
unfolding traverse version_to_entity
traverse_numbers [] vs h = ground arith
traverse_numbers (m ∷ ms) [] h = ground arith
traverse_numbers (m ∷ ms) (v ∷ vs) h = ground (arith, traverse_numbers ms vs)

-- The versions of a document are listed from the highest number to the lowest, and their numbers are
-- those of all its rows.
pub list_versions_order :
    (document_id : Uuid) (w : World) (vs : List KnowledgeDocumentVersion)
    → (Documents.list_versions document_id w).0 ≡ ok vs
    → IsDescending (λ v. v.version_number) vs
      × Perm
          (map (λ v. v.version_number) vs)
          (map (λ v. v.version_number) (select (owns document_id) w.versions))
unfolding Documents.list_versions
list_versions_order document_id w vs h =
    let rows = select (owns document_id) w.versions in
    let models = sort_desc (λ v. v.version_number) rows in
    let same = traverse_numbers models vs h in
    (
      IsDescending-of_map (λ v. v.version_number) (λ v. v.version_number) vs models same
          (sort_desc-IsDescending (λ v. v.version_number) rows),
      rw same (Perm.map (λ v. v.version_number) (sort_desc-Perm (λ v. v.version_number) rows)),
    )
