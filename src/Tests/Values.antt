-- ===== src/Tests/Values.antt =====
-- Metadata, settings and the checks of an upload.
use cortex_rag.Base.{◌≡◌, refl, ◌↔◌, true, false, some, [], ◌∷◌, nat_eq, text, text_eq}
use cortex_rag.Base.Str.{
  is_empty, contains, has_char, is_space, drop_while, rstrip, strip, after_last_dot, split_commas,
}
use cortex_rag.Base.Int.{gtb_ℤ}
use cortex_rag.Exec.{ok}
use cortex_rag.Metadata.{
  allowed_languages, KnowledgeMetadata, empty_metadata, strip_all, has_duplicates, any_blank,
  validate_language, validate_tags, validate_keywords, validate_metadata,
}
use cortex_rag.Metadata.Laws.{validate_metadata_idem}
use cortex_rag.Settings.{
  items, raw_text, other, strip_items, starts_list, parse_str_list, max_size_bytes,
}
use cortex_rag.Validation.{validate_upload}
use cortex_rag.Validation.Laws.{validate_upload_iff}
use cortex_rag.Tests.Data.{env, upload_settings}

validate_upload_iff_example :
    (validate_upload env upload_settings (text "a.txt") (text "hi") (text "text/plain")
      ≡ ok (text "txt"))
    ↔ ((is_empty (text "hi") ≡ false)
        × (gtb_ℤ 2 (max_size_bytes upload_settings) ≡ false)
        × (has_char b'.' (text "a.txt") ≡ true)
        × (text "txt" ≡ after_last_dot (text "a.txt"))
        × (contains (text "txt" ∷ []) (text "txt") ≡ true)
        × (contains (text "text/plain" ∷ []) (text "text/plain") ≡ true))
validate_upload_iff_example =
    validate_upload_iff env upload_settings (text "a.txt") (text "hi") (text "text/plain")
      (text "txt")

empty_is_valid : validate_metadata env.lower empty_metadata ≡ ok empty_metadata
unfolding validate_metadata validate_language validate_tags validate_keywords strip_all any_blank
    has_duplicates
empty_is_valid = refl

abbrev spaced : KnowledgeMetadata
spaced = record empty_metadata { language = some (text " en"); tags = text "a " ∷ [] }

abbrev trimmed : KnowledgeMetadata
trimmed = record empty_metadata { language = some (text "en"); tags = text "a" ∷ [] }

spaced_trims : validate_metadata env.lower spaced ≡ ok trimmed
unfolding validate_metadata validate_language validate_tags validate_keywords strip_all any_blank
    has_duplicates allowed_languages contains strip drop_while rstrip is_space text_eq nat_eq
spaced_trims = refl

validate_metadata_idem_example : validate_metadata env.lower trimmed ≡ ok trimmed
validate_metadata_idem_example =
    validate_metadata_idem env.lower (λ l h. refl) spaced trimmed spaced_trims

read_items :
    parse_str_list (λ _. ok other) (raw_text (text "pdf, ,txt "))
    ≡ ok (items (text "pdf" ∷ text "txt" ∷ []))
unfolding parse_str_list strip_items split_commas strip drop_while rstrip is_space nat_eq
read_items = refl

not_json : starts_list (strip (text "pdf, ,txt ")) ≡ false
unfolding strip drop_while rstrip is_space nat_eq
not_json = refl
