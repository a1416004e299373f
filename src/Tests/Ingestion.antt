-- ===== src/Tests/Ingestion.antt =====
-- Processing a document.
use cortex_rag.Base.{
  ℕ, ◌≡◌, refl, sym, ap, ◌∙◌, ◌≢◌, some, List, [], ◌∷◌, map, arith, nat_eq, length, drop, Text,
  text, text_eq,
}
use cortex_rag.Exec.{ok}
use cortex_rag.Status.{document_status_from, storage_provider_from}
use cortex_rag.SourceType.{source_type_from}
use cortex_rag.Metadata.{
  strip_all, has_duplicates, any_blank, validate_language, validate_tags, validate_keywords,
  validate_metadata,
}
use cortex_rag.Document.{version_to_entity, version_to_model, doc_to_entity, doc_to_model}
use cortex_rag.World.{Env}
use cortex_rag.Vector.{
  TextChunk, ChunkingConfig, default_chunking, Embedding, VectorPoint, ParsedDocument, upserted,
}
use cortex_rag.Repo.Sql.{update_first}
use cortex_rag.Repo.Documents.{by_id, set_documents}
use cortex_rag.Documents.Process.{chunk_vector_id, process_document}
use cortex_rag.Documents.Process.Points.{IsBatch}
use cortex_rag.Documents.Process.Effect.{processed_row, process_indexed}
use cortex_rag.Base.Digits.{value_onto, value_onto-decimal}
use cortex_rag.Adapters.Chunker.Ids.{chunk_name, ids-AreDistinct}
use cortex_rag.Repo.Sql.Laws.{AreDistinct}
use cortex_rag.Tests.Data.{tenant, env, the_version, the_document, stocked}
use cortex_rag.Metadata.Column.{strings_of, json_strings, model_validate, model_dump}
use cortex_rag.Repo.Documents
use cortex_rag.Adapters.Chunker

stocked_read : (Documents.get env tenant 1 stocked).0 ≡ ok (some the_document)
unfolding Documents.get Documents.with_version Documents.load_version version_to_model
    version_to_entity doc_to_model doc_to_entity storage_provider_from document_status_from
    source_type_from model_validate model_dump strings_of json_strings validate_metadata
    validate_language validate_tags validate_keywords strip_all any_blank has_duplicates text_eq
    nat_eq
stocked_read = refl

abbrev parsed : ParsedDocument
parsed = record { parsed_text = text "hi"; page_count = 1; metadata = [] }

abbrev chunk : TextChunk
chunk = record { index = 0; content = text "hi" }

abbrev one_vector : List Embedding
one_vector = record { vector = 1 ∷ []; model = text "m" } ∷ []

stocked_loaded : env.load stocked.saved (text "k") ≡ ok (text "hi")
unfolding text_eq
stocked_loaded = refl

process_indexed_example :
    (ps : List VectorPoint) × IsBatch env tenant 1 (chunk ∷ []) one_vector ps
    × (process_document env tenant 1 stocked ≡ (
      ok tt,
      set_documents
          (update_first (by_id 1) (processed_row env the_document))
          (record stocked { vector_calls = upserted ps ∷ [] }),
    ))
process_indexed_example =
    process_indexed env tenant 1 stocked the_document the_version (text "hi") parsed stocked_read
      refl stocked_loaded refl chunk [] one_vector refl refl refl (λ ps batch. refl)

-- An embedder that gives no vector.
abbrev mute : Env
mute = record env { embed_batch = λ _ _. ok [] }

stocked_read_mute : (Documents.get mute tenant 1 stocked).0 ≡ ok (some the_document)
unfolding Documents.get Documents.with_version Documents.load_version version_to_model
    version_to_entity doc_to_model doc_to_entity storage_provider_from document_status_from
    source_type_from model_validate model_dump strings_of json_strings validate_metadata
    validate_language validate_tags validate_keywords strip_all any_blank has_duplicates text_eq
    nat_eq
stocked_read_mute = refl

one-ne-none : length (chunk ∷ []) ≢ 0
one-ne-none h = omega (arith, h)

-- A hash of the names that reads the digits behind the 18 characters before them.
abbrev hashed : Env
hashed = record env { uuid5 = λ s. value_onto 0 (drop 18 s) }

hashed_apart :
    (i j : ℕ)
    → hashed.uuid5 (chunk_name hashed 1 i) ≡ hashed.uuid5 (chunk_name hashed 1 j)
    → chunk_name hashed 1 i ≡ chunk_name hashed 1 j
hashed_apart i j h =
    ap (chunk_name hashed 1) (sym (value_onto-decimal i) ∙ h ∙ value_onto-decimal j)

abbrev in_words : ChunkingConfig → Text → List Text
in_words _ _ = text "hi" ∷ text "ho" ∷ []

ids-AreDistinct_example : AreDistinct (
    map
      (λ c. chunk_vector_id hashed 1 c.index)
      (Chunker.split in_words (text "hi ho") default_chunking))
ids-AreDistinct_example =
    ids-AreDistinct hashed 1 hashed_apart in_words (text "hi ho") default_chunking
