-- ===== src/Adapters/Qdrant/Collections.antt =====
-- The collections that the process remembers are there.
use cortex_rag.Base.{
  ℕ, ◌≡◌, refl, ◌⊎◌, inl, inr, Bool, true, false, Option, List, [], ◌∷◌, map, arith, Bool-cases, ℤ,
  Text,
}
use cortex_rag.Exec.{Result, ok, err, is_ok, Exec}
use cortex_rag.Vector.{Float, Payload, VectorPoint}
use cortex_rag.Job.{Uuid}
use cortex_rag.Base.Str.{contains}
use cortex_rag.Adapters.Qdrant.{
  PointStruct, FieldCondition, Client, Qdrant, query_filter, ensure_collection, point_struct,
  upsert, search, delete,
}
use cortex_rag.Repo.Sql.Pages.{all}

-- A call of the adapter, whatever it gives.
pub data Call : Type 0 where
  upsert_call : List VectorPoint → Call
  search_call : List Float → ℕ → Payload → Call
  delete_call : List Text → Call

abbrev pub forget : {A : Type 0} → Result A → Result (Unit {0})
forget (ok _) = ok tt
forget (err e) = err e

-- The call in a process, with its error if it raises.
abbrev pub run_call :
    {S : Type 0}
    → Client S
    → (Uuid → Text)
    → (Text → Result Uuid)
    → Text
    → ℤ
    → Call
    → Exec (Qdrant S) (Unit {0})
run_call client uuid_str uuid_of collection size (upsert_call points) q =
    upsert client uuid_str uuid_of collection size points q
run_call client uuid_str uuid_of collection size (search_call vector limit filters) q =
    let (r, q') = search client uuid_str uuid_of collection size vector limit filters q in
    (forget r, q')
run_call client uuid_str uuid_of collection size (delete_call ids) q =
    delete client uuid_str uuid_of collection size ids q

-- A call of the client drops no collection.
abbrev pub Keeps : {S : Type 0} {A : Type 0} → (S → Text → Bool) → Exec S A → Type 0
Keeps {S = S} has m = (s : S) (c : Text) → has s c ≡ true → has (m s).1 c ≡ true

-- What the client promises: `collection_exists` tells whether the collection is there,
-- `create_collection` makes it, and no call of these drops one.
pub record Promises {S : Type 0} (client : Client S) (has : S → Text → Bool) : Type 0 where
  pub tells : (c : Text) (s : S) (b : Bool) → (client.collection_exists c s).0 ≡ ok b → b ≡ has s c
  pub makes :
      (c : Text) (n : ℤ) (s : S)
      → (client.create_collection c n s).0 ≡ ok tt
      → has (client.create_collection c n s).1 c ≡ true
  pub exists_keeps : (c : Text) → Keeps has (client.collection_exists c)
  pub create_keeps : (c : Text) (n : ℤ) → Keeps has (client.create_collection c n)
  pub upsert_keeps : (c : Text) (ps : List PointStruct) → Keeps has (client.upsert_points c ps)
  pub query_keeps :
      (c : Text) (v : List Float) (n : ℕ) (f : Option (List FieldCondition))
      → Keeps has (client.query_points c v n f)
  pub delete_keeps : (c : Text) (ids : List Text) → Keeps has (client.delete_points c ids)

holds_of_all :
    (p : Text → Bool) (xs : List Text) (c : Text)
    → all p xs ≡ true
    → contains xs c ≡ true
    → p c ≡ true
unfolding contains
holds_of_all p [] c h there = ground arith
holds_of_all p (x ∷ xs) c h there = ground (arith, holds_of_all p xs c)

all_of_each :
    (p : Text → Bool) (xs : List Text)
    → ((c : Text) → contains xs c ≡ true → p c ≡ true)
    → all p xs ≡ true
unfolding contains
all_of_each p [] each = refl
all_of_each p (x ∷ xs) each =
    ground (arith, each x (ground arith), all_of_each p xs (λ c h. each c (ground (arith, h))))

module _ {S : Type 0} (client : Client S) (has : S → Text → Bool) (promises : Promises client has)
    (uuid_str : Uuid → Text) (uuid_of : Text → Result Uuid) (collection : Text) (size : ℤ) where
  -- Every collection that is remembered is there.
  abbrev pub AreThere : Qdrant S → Type 0
  AreThere q = (c : Text) → contains q.ensured c ≡ true → has q.store c ≡ true

  abbrev ensure : Exec (Qdrant S) (Unit {0})
  ensure = ensure_collection client uuid_str uuid_of collection size

  ensure-AreThere :
      (q : Qdrant S) (c : Text)
      → (contains q.ensured c ≡ true → has q.store c ≡ true)
      → (contains q.ensured collection ≡ true → has q.store collection ≡ true)
      → (contains (ensure q).1.ensured c ≡ true → has (ensure q).1.store c ≡ true)
        × (is_ok (ensure q).0 ≡ true → has (ensure q).1.store collection ≡ true)
  unfolding ensure_collection contains
  ensure-AreThere q c there_c there =
      let s = (client.collection_exists collection q.store).1 in
      ground (
        arith,
        promises.exists_keeps collection q.store c,
        promises.exists_keeps collection q.store collection,
        promises.create_keeps collection size s c,
        promises.create_keeps collection size s collection,
        promises.makes collection size s,
        promises.tells collection q.store true,
      )

  abbrev run_it : Call → Exec (Qdrant S) (Unit {0})
  run_it = run_call client uuid_str uuid_of collection size

  call-AreThere :
      (call : Call) (q : Qdrant S) (c : Text)
      → AreThere q
      → (contains (run_it call q).1.ensured c ≡ true → has (run_it call q).1.store c ≡ true)
        × (is_ok (run_it call q).0 ≡ true → has (run_it call q).1.store collection ≡ true)
  unfolding upsert search delete
  call-AreThere (upsert_call points) q c h =
      let (kept, made) = ensure-AreThere q c (h c) (h collection) in
      let s = (ensure q).1.store in
      let ps = map (point_struct client uuid_str uuid_of collection size) points in
      ground (
        arith,
        kept,
        made,
        promises.upsert_keeps collection ps s c,
        promises.upsert_keeps collection ps s collection,
      )
  call-AreThere (search_call vector limit filters) q c h =
      let (kept, made) = ensure-AreThere q c (h c) (h collection) in
      let s = (ensure q).1.store in
      let f = query_filter filters in
      ground (
        arith,
        kept,
        made,
        promises.query_keeps collection vector limit f s c,
        promises.query_keeps collection vector limit f s collection,
      )
  call-AreThere (delete_call ids) q c h =
      let (kept, made) = ensure-AreThere q c (h c) (h collection) in
      let s = (ensure q).1.store in
      ground (
        arith,
        kept,
        made,
        promises.delete_keeps collection ids s c,
        promises.delete_keeps collection ids s collection,
      )

  -- Where the client keeps its promises and every collection that the process remembers is there, the
  -- same holds after any call of the adapter, whether it returns or raises; and the call has raised or
  -- its own collection is there.
  pub run_call-AreThere :
      (call : Call) (q : Qdrant S)
      → all (has q.store) q.ensured ≡ true
      → (all (has (run_it call q).1.store) (run_it call q).1.ensured ≡ true)
        × ((is_ok (run_it call q).0 ≡ false) ⊎ (has (run_it call q).1.store collection ≡ true))
  run_call-AreThere call q h =
      let there : AreThere q = λ c. holds_of_all (has q.store) q.ensured c h in
      (
        all_of_each (has (run_it call q).1.store) (run_it call q).1.ensured
            (λ c. (call-AreThere call q c there).0),
        elim (Bool-cases (is_ok (run_it call q).0)) [
          | inl returned ↦ inr ((call-AreThere call q collection there).1 returned)
          | inr raised ↦ inl raised
        ],
      )
