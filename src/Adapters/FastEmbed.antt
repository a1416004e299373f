-- ===== src/Adapters/FastEmbed.antt =====
-- `FastEmbedEmbeddingProvider` (app/infrastructure/embeddings/fastembed_provider.py). The library's
-- models are a parameter: `load` makes one of its name, and may raise.
use cortex_rag.Base.{◌≡◌, List, [], ◌∷◌, map, arith, Text, text, text_eq}
use cortex_rag.Exec.{external_error, Result, ok, err, and_then, Exec, pure, lift, ◌>>=◌}
use cortex_rag.Vector.{Float, Embedding, EmbeddingTaskType, document_task, query_task}
use cortex_rag.Adapters.Cache.{get_or_make, IsMade, get_or_make-make}

-- `TextEmbedding`: what it makes of passages and of queries.
pub record EmbeddingModel : Type 0 where
  pub passage_embed : List Text → Result (List (List Float))
  pub query_embed : List Text → Result (List (List Float))

-- `_model_cache`
abbrev pub ModelCache : Type 0
ModelCache = List (Text × EmbeddingModel)

abbrev embed_fn : EmbeddingTaskType → EmbeddingModel → List Text → Result (List (List Float))
embed_fn document_task model = model.passage_embed
embed_fn query_task model = model.query_embed

abbrev embeddings_of : Text → List (List Float) → List Embedding
embeddings_of model_name vectors = map (λ v. record { vector = v; model = model_name }) vectors

-- `embeddings[0]`
abbrev pub first_of : List Embedding → Result Embedding
first_of [] = err (external_error (text "list index out of range"))
first_of (e ∷ _) = ok e

module _ (load : Text → Result EmbeddingModel) where
  -- `_get_model`
  unfoldable pub get_model : Text → Exec ModelCache EmbeddingModel
  unfolding get_or_make
  get_model = get_or_make ⦃e = text_eq⦄ load

  module _ (model_name : Text) where
    unfoldable pub embed_batch : List Text → EmbeddingTaskType → Exec ModelCache (List Embedding)
    unfolding get_model
    embed_batch texts task_type = do
      model ← get_model model_name
      vectors ← lift (embed_fn task_type model texts)
      pure (embeddings_of model_name vectors)

    unfoldable pub embed_text : Text → EmbeddingTaskType → Exec ModelCache Embedding
    unfolding embed_batch
    embed_text source task_type = do
      embeddings ← embed_batch (source ∷ []) task_type
      lift (first_of embeddings)

    -- What an adapter without a cache gives: it loads the model for each call.
    abbrev pub embed_uncached : List Text → EmbeddingTaskType → Result (List Embedding)
    embed_uncached texts task_type = and_then (load model_name) (λ model.
        and_then (embed_fn task_type model texts)
          (λ vectors. ok (embeddings_of model_name vectors)))

  -- The cache shows in no result: where each of its models is the one that its name loads, a call
  -- gives what loading the model for this call would give, errors included, and leaves such a cache;
  -- and the embedding of one text is the first of the batch of that text alone.
  pub embed_batch-embed_uncached :
      (name : Text) (texts : List Text) (task_type : EmbeddingTaskType) (cache : ModelCache)
      → IsMade load cache
      → ((embed_batch name texts task_type cache).0 ≡ embed_uncached name texts task_type)
        × IsMade load (embed_batch name texts task_type cache).1
        × ((source : Text)
            → (embed_text name source task_type cache).0
              ≡ and_then (embed_uncached name (source ∷ []) task_type) first_of)
  unfolding embed_batch embed_text
  embed_batch-embed_uncached name texts task_type cache h =
      let (same, kept) = get_or_make-make ⦃e = text_eq⦄ load name cache h in
      (ground (arith, same), ground (arith, same, kept), λ source. ground (arith, same))
