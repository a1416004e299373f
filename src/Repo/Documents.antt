-- ===== src/Repo/Documents.antt =====
-- `SqlAlchemyDocumentRepository` (document_repository.py).
pub mod Laws
pub mod Listing
use cortex_rag.Base.{
  ℕ, Bool, true, false, ◌&&◌, ◌||◌, Option, none, some, List, [], ◌∷◌, ◌++◌, ◌==◌, if◌then◌else◌,
  nat_eq, length, select, select_first, is_none, Text, text_eq,
}
use cortex_rag.Exec.{
  Exception, integrity_error, ok, and_then, pure, lift, gets, ◌>>=◌, ◌>>◌, modify, raise_if,
}
use cortex_rag.Status.{document_status_value}
use cortex_rag.Job.{Uuid}
use cortex_rag.Document.{
  KnowledgeDocumentVersion, KnowledgeDocument, DocumentRow, VersionRow, version_to_entity,
  version_to_model, doc_to_entity, doc_to_model,
}
use cortex_rag.World.{Database, World, Action, Env}
use cortex_rag.Repo.Sql.{exists, update_first, sort_desc, page, traverse}
use cortex_rag.Metadata.Column.{model_dump}

abbrev pub by_id : Uuid → DocumentRow → Bool
by_id document_id d = d.id == document_id

-- The condition of `get`.
abbrev pub is_live : Text → Uuid → DocumentRow → Bool
is_live tenant_id document_id d =
    d.id == document_id && d.tenant_id == tenant_id && is_none d.deleted_at

-- The primary key and the unique index `ix_versions_document_number`.
abbrev pub clashes : VersionRow → VersionRow → Bool
clashes new v =
    v.id == new.id || (v.document_id == new.document_id && v.version_number == new.version_number)

abbrev pub owns : Uuid → VersionRow → Bool
owns document_id v = v.document_id == document_id

-- The filters of `list_documents`.
abbrev pub in_space : Option Uuid → DocumentRow → Bool
in_space none d = true
in_space (some space) d = elim d.knowledge_space_id [ none ↦ false | some s ↦ s == space ]

abbrev pub is_listed : Text → Option Uuid → DocumentRow → Bool
is_listed tenant_id space d = d.tenant_id == tenant_id && is_none d.deleted_at && in_space space d

-- The WHERE of the join in `get_by_checksum`: a live document with some version of that checksum.
abbrev pub has_checksum : Database → Text → Text → DocumentRow → Bool
has_checksum db tenant_id checksum d =
    d.tenant_id == tenant_id
    && is_none d.deleted_at
    && exists (λ v. v.document_id == d.id && v.checksum_sha256 == checksum) db.versions

-- `versions.get(id)`, in the dict that `list_documents` builds
abbrev pub version_in :
    Option Uuid → List KnowledgeDocumentVersion → Option KnowledgeDocumentVersion
version_in none versions = none
version_in (some i) versions = select_first (λ v. v.id == i) versions

-- `KnowledgeDocumentVersionModel.id.in_(version_ids)`
abbrev pub is_current_of_some : List DocumentRow → VersionRow → Bool
is_current_of_some models v =
    exists (λ d. elim d.current_version_id [ none ↦ false | some i ↦ i == v.id ]) models

abbrev pub set_documents : (List DocumentRow → List DocumentRow) → World → World
set_documents f w = record w { db = record w.db { documents = f w.documents } }

abbrev pub append_version : VersionRow → World → World
append_version v w = record w { db = record w.db { versions = w.versions ++ (v ∷ []) } }

-- `_load_version`
unfoldable pub load_version : Option Uuid → Action (Option KnowledgeDocumentVersion)
load_version none w = (ok none, w)
load_version (some version_id) w = elim (select_first (λ v. v.id == version_id) w.versions) [
  | none ↦ (ok none, w)
  | some model ↦ (and_then (version_to_entity model) (λ v. ok (some v)), w)
]

unfoldable pub list_versions : Uuid → Action (List KnowledgeDocumentVersion)
unfolding sort_desc traverse
list_versions document_id = do
  models ← gets (λ w. sort_desc (λ v. v.version_number) (select (owns document_id) w.versions))
  lift (traverse version_to_entity models)

module _ (env : Env) where
  abbrev duplicate : Exception
  duplicate = integrity_error env.duplicate_key

  -- What `get` and `get_by_checksum` do with the row that they found.
  unfoldable pub with_version : Option DocumentRow → Action (Option KnowledgeDocument)
  unfolding load_version
  with_version none = pure none
  with_version (some model) = do
    version ← load_version model.current_version_id
    lift (and_then (doc_to_entity env.lower model version) (λ d. ok (some d)))

  -- `add`: both rows are written by one flush, or neither.
  unfoldable pub add : KnowledgeDocument → KnowledgeDocumentVersion → Action (Unit {0})
  unfolding exists
  add document initial_version = do
    clash ← gets (λ w.
        exists (clashes (version_to_model w.server_now initial_version)) w.versions
        || exists (by_id document.id) w.documents)
    raise_if clash duplicate
    modify (λ w.
        append_version (version_to_model w.server_now initial_version)
          (set_documents (λ ds. ds ++ (doc_to_model w.server_now document ∷ [])) w))

  abbrev pub point_at : KnowledgeDocument → DocumentRow → DocumentRow
  point_at document d =
      let new = record d {
        current_version_id = document.current_version_id;
        status = document_status_value document.status;
      } in
      record new { updated_at = env.document_updated_at d new }

  -- `add_version`
  unfoldable pub add_version : KnowledgeDocument → KnowledgeDocumentVersion → Action (Unit {0})
  unfolding exists update_first
  add_version document version = do
    clash ← gets (λ w. exists (clashes (version_to_model w.server_now version)) w.versions)
    raise_if clash duplicate
    modify (λ w.
        append_version (version_to_model w.server_now version)
          (set_documents (update_first (by_id document.id) (point_at document)) w))

  unfoldable pub get : Text → Uuid → Action (Option KnowledgeDocument)
  unfolding with_version
  get tenant_id document_id = do
    model ← gets (λ w. select_first (is_live tenant_id document_id) w.documents)
    with_version model

  unfoldable pub get_by_checksum : Text → Text → Action (Option KnowledgeDocument)
  unfolding with_version exists
  get_by_checksum tenant_id checksum = do
    model ← gets (λ w. select_first (has_checksum w.db tenant_id checksum) w.documents)
    with_version model

  unfoldable pub list_documents : Text → Option Uuid → ℕ → ℕ → Action (List KnowledgeDocument × ℕ)
  unfolding exists sort_desc traverse
  list_documents tenant_id space limit offset = do
    listed ← gets (λ w. select (is_listed tenant_id space) w.documents)
    let models = page limit offset (sort_desc (λ d. d.created_at) listed)
    rows ← gets (λ w. select (is_current_of_some models) w.versions)
    versions ← lift (traverse version_to_entity rows)
    items ← lift (
        traverse (λ m. doc_to_entity env.lower m (version_in m.current_version_id versions)) models)
    pure (items, length listed)

  abbrev write_fields : KnowledgeDocument → DocumentRow → DocumentRow
  write_fields document d =
      let new = record d {
        title = document.title;
        knowledge_space_id = document.knowledge_space_id;
        status = document_status_value document.status;
        meta = model_dump document.metadata;
        current_version_id = document.current_version_id;
        deleted_at = document.deleted_at;
      } in
      record new { updated_at = env.document_updated_at d new }

  -- `update`: the row with that id, unless it is of another tenant.
  abbrev pub write_document : KnowledgeDocument → DocumentRow → DocumentRow
  write_document document d =
      if d.tenant_id == document.tenant_id then write_fields document d else d

  unfoldable pub update : KnowledgeDocument → Action (Unit {0})
  unfolding update_first
  update document =
      modify (set_documents (update_first (by_id document.id) (write_document document)))
