-- ===== src/Adapters/Qdrant.antt =====
-- `QdrantVectorRepository` (app/infrastructure/vector_store/qdrant_repository.py). The client is a
-- parameter: its calls change a state of its own, and may raise. A process has one client, so the
-- collections that it remembers, which the code keys by their name alone, are those of one host.
pub mod Collections
use cortex_rag.Base.{ℕ, Bool, Option, none, some, List, [], ◌∷◌, map, Eq, if◌then◌else◌, ℤ, Text}
use cortex_rag.Exec.{Result, ok, and_then, Exec, pure, lift, ◌>>=◌, ◌>>◌, modify}
use cortex_rag.Vector.{Float, Value, Payload, VectorPoint, SearchResult}
use cortex_rag.Job.{Uuid}
use cortex_rag.Base.Str.{contains}
use cortex_rag.Repo.Sql.{traverse}
use cortex_rag.Adapters.Cache.{get_or_make}

-- `models.PointStruct`, `models.FieldCondition` with its `MatchValue`, and a point that was found.
pub record PointStruct : Type 0 where
  pub id : Text
  pub vector : List Float
  pub payload : Payload

pub record FieldCondition : Type 0 where
  pub key : Text
  pub value : Value

pub record ScoredPoint : Type 0 where
  pub id : Text
  pub score : Float
  pub payload : Option Payload

-- `AsyncQdrantClient`: the calls that the adapter makes.
pub record Client (S : Type 0) : Type 0 where
  pub collection_exists : Text → Exec S Bool
  pub create_collection : Text → ℤ → Exec S (Unit {0})
  pub upsert_points : Text → List PointStruct → Exec S (Unit {0})
  pub query_points :
      Text → List Float → ℕ → Option (List FieldCondition) → Exec S (List ScoredPoint)
  pub delete_points : Text → List Text → Exec S (Unit {0})

-- `_get_client`: one client for each host and port, where `new_client` makes one.
unfoldable pub get_client :
    {C : Type 0} ⦃e : Eq (Text × ℤ)⦄
    → (Text × ℤ → Result C)
    → Text
    → ℤ
    → Exec (List ((Text × ℤ) × C)) C
unfolding get_or_make
get_client new_client host port = get_or_make new_client (host, port)

-- The process: `_ensured_collections`, and the client's state.
pub record Qdrant (S : Type 0) : Type 0 where
  pub ensured : List Text
  pub store : S

-- `filters` as a query filter; None and an empty dict are none.
abbrev pub query_filter : Payload → Option (List FieldCondition)
query_filter [] = none
query_filter (f ∷ fs) = some (map (λ e. record { key = e.0; value = e.1 }) (f ∷ fs))

-- `hit.payload or {}`
abbrev pub payload_or_empty : Option Payload → Payload
payload_or_empty none = []
payload_or_empty (some p) = p

module _ {S : Type 0} (client : Client S) (uuid_str : Uuid → Text) (uuid_of : Text → Result Uuid)
    (collection : Text) (vector_size : ℤ) where
  abbrev pub on_store : {A : Type 0} → Exec S A → Exec (Qdrant S) A
  on_store m q = ((m q.store).0, record q { store = (m q.store).1 })

  abbrev pub create_unless : Bool → Exec (Qdrant S) (Unit {0})
  create_unless there =
      if there then pure tt else on_store (client.create_collection collection vector_size)

  -- `_ensured_collections.add`
  abbrev pub remember : Exec (Qdrant S) (Unit {0})
  remember = modify (λ q. record q { ensured = collection ∷ q.ensured })

  -- The rest of `_ensure_collection`, for a collection that is not remembered.
  abbrev pub look_for_collection : Exec (Qdrant S) (Unit {0})
  look_for_collection = do
    there ← on_store (client.collection_exists collection)
    create_unless there
    remember

  unfoldable pub ensure_collection : Exec (Qdrant S) (Unit {0})
  unfolding contains
  ensure_collection q = (if contains q.ensured collection then pure tt else look_for_collection) q

  abbrev pub point_struct : VectorPoint → PointStruct
  point_struct p = record { id = uuid_str p.id; vector = p.vector; payload = p.payload }

  unfoldable pub upsert : List VectorPoint → Exec (Qdrant S) (Unit {0})
  unfolding ensure_collection
  upsert points =
      ensure_collection >> on_store (client.upsert_points collection (map point_struct points))

  abbrev pub search_result : ScoredPoint → Result SearchResult
  search_result hit =
      and_then (uuid_of hit.id)
        (λ id. ok (record { id = id; score = hit.score; payload = payload_or_empty hit.payload }))

  unfoldable pub search : List Float → ℕ → Payload → Exec (Qdrant S) (List SearchResult)
  unfolding ensure_collection traverse
  search vector limit filters = do
    ensure_collection
    hits ← on_store (client.query_points collection vector limit (query_filter filters))
    lift (traverse search_result hits)

  unfoldable pub delete : List Text → Exec (Qdrant S) (Unit {0})
  unfolding ensure_collection
  delete ids = ensure_collection >> on_store (client.delete_points collection ids)
