-- ===== src/Documents/Process/Points.antt =====
-- The points that processing a document writes.
use cortex_rag.Base.{◌≡◌, refl, ◌↔◌, true, List, [], ◌∷◌, ◌++◌, map, arith, length, Text, text}
use cortex_rag.Base.Str.{decimal}
use cortex_rag.Exec.{ok, is_ok}
use cortex_rag.Job.{Uuid}
use cortex_rag.Vector.{TextChunk, Embedding, str_value, int_value, VectorPoint}
use cortex_rag.World.{Env}
use cortex_rag.Documents.Process.{chunk_vector_id, point_of, points_of}

module _ (env : Env) (tenant_id : Text) (document_id : Uuid) where
  -- The id that the chunk's point has, whatever its vector.
  abbrev pub id_of : TextChunk → Uuid
  id_of c = chunk_vector_id env document_id c.index

  -- The points of chunks and their vectors: one for each chunk in order, whose id is made of the
  -- document's id and the chunk's index, and which carries the vector, the tenant, the document's id,
  -- the index and the text.
  abbrev pub IsBatch : List TextChunk → List Embedding → List VectorPoint → Type 0
  IsBatch cs es ps =
      (map (λ p. p.id) ps
        ≡ map
            (λ c. env.uuid5 (
              text "knowledge-chunk:"
              ++ (env.uuid_str document_id ++ (text ":" ++ decimal c.index))))
            cs)
      × (map (λ p. p.vector) ps ≡ map (λ e. e.vector) es)
      × (map (λ p. p.payload) ps
          ≡ map
              (λ c.
                (text "tenant_id", str_value tenant_id)
                ∷ (text "document_id", str_value (env.uuid_str document_id))
                ∷ (text "chunk_index", int_value c.index)
                ∷ (text "content", str_value c.content)
                ∷ [])
              cs)

  pub points_of_ok :
      (cs : List TextChunk) (es : List Embedding)
      → length cs ≡ length es
      → (ps : List VectorPoint) × (points_of env tenant_id document_id cs es ≡ ok ps)
        × IsBatch cs es ps
  unfolding points_of chunk_vector_id
  points_of_ok [] [] h = ([], refl, (refl, refl, refl))
  points_of_ok [] (e ∷ es) h = ground arith
  points_of_ok (c ∷ cs) [] h = ground arith
  points_of_ok (c ∷ cs) (e ∷ es) h =
      let (ps, made, batch) = points_of_ok cs es (omega (arith, h)) in
      (
        point_of env tenant_id document_id c e ∷ ps,
        rw made refl,
        (rw batch.0 refl, rw batch.1 refl, rw batch.2 refl),
      )

  -- Points are made exactly where the embedder gave one vector for each chunk.
  pub points_of_iff :
      (cs : List TextChunk) (es : List Embedding)
      → (is_ok (points_of env tenant_id document_id cs es) ≡ true) ↔ (length cs ≡ length es)
  unfolding points_of
  points_of_iff [] [] = (λ h. refl, λ h. refl)
  points_of_iff [] (e ∷ es) = (λ h. ground arith, λ h. ground arith)
  points_of_iff (c ∷ cs) [] = (λ h. ground arith, λ h. ground arith)
  points_of_iff (c ∷ cs) (e ∷ es) =
      (λ h. ground (arith, points_of_iff cs es), λ h. ground (arith, points_of_iff cs es))
