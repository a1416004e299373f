-- ===== src/Metadata.antt =====
-- The typed metadata of a document and its validators (app/domain/documents/metadata.py).
pub mod Laws
pub mod Column
use cortex_rag.Base.{
  Bool, false, ◌||◌, Option, none, some, List, [], ◌∷◌, ◌++◌, map, if◌then◌else◌, Text, text,
}
use cortex_rag.Base.Str.{is_empty, contains, strip}
use cortex_rag.Exec.{Exception, value_error, Result, ok, err, and_then}
use cortex_rag.Job.{Time}

-- `ALLOWED_LANGUAGES`
unfoldable pub allowed_languages : List Text
allowed_languages =
    text "es"
    ∷ text "en"
    ∷ text "pt"
    ∷ text "fr"
    ∷ text "de"
    ∷ text "it"
    ∷ text "nl"
    ∷ text "ca"
    ∷ text "gl"
    ∷ text "eu"
    ∷ text "ru"
    ∷ text "zh"
    ∷ text "ja"
    ∷ text "ko"
    ∷ text "ar"
    ∷ text "hi"
    ∷ text "tr"
    ∷ text "pl"
    ∷ text "sv"
    ∷ text "no"
    ∷ text "da"
    ∷ text "fi"
    ∷ text "cs"
    ∷ text "el"
    ∷ text "he"
    ∷ text "uk"
    ∷ text "ro"
    ∷ text "hu"
    ∷ []

pub data SecurityLevel : Type 0 where
  open_level internal confidential restricted secret : SecurityLevel

pub record KnowledgeMetadata : Type 0 where
  pub language : Option Text
  pub author : Option Text
  pub organization : Option Text
  pub department : Option Text
  pub category : Option Text
  pub tags : List Text
  pub keywords : List Text
  pub security_level : Option SecurityLevel
  pub retention_policy : Option Text
  pub created_by_application : Option Text
  pub document_created_at : Option Time
  pub document_modified_at : Option Time
  pub custom_properties : List (Text × Text)

abbrev pub empty_metadata : KnowledgeMetadata
empty_metadata = record {
  language = none;
  author = none;
  organization = none;
  department = none;
  category = none;
  tags = [];
  keywords = [];
  security_level = none;
  retention_policy = none;
  created_by_application = none;
  document_created_at = none;
  document_modified_at = none;
  custom_properties = [];
}

-- `[f(x) for x in xs if f(x)]`, where `f` strips
unfoldable pub strip_all : List Text → List Text
strip_all [] = []
strip_all (t ∷ ts) =
    let s = strip t in let rest = strip_all ts in if is_empty s then rest else s ∷ rest

-- `len(set(xs)) != len(xs)`
unfoldable pub has_duplicates : List Text → Bool
unfolding contains
has_duplicates [] = false
has_duplicates (t ∷ ts) = contains ts t || has_duplicates ts

-- `any(not k.strip() for k in xs)`
unfoldable pub any_blank : List Text → Bool
any_blank [] = false
any_blank (k ∷ ks) = is_empty (strip k) || any_blank ks

-- The validators are given `str.lower`.
module _ (lower : Text → Text) where
  abbrev unsupported : Text → Exception
  unsupported value = value_error (
      text "Unsupported language '"
      ++ (value ++ text "'. Use an ISO 639-1 code (e.g. 'es', 'en')."))

  unfoldable pub validate_language : Option Text → Result (Option Text)
  validate_language none = ok none
  validate_language (some value) =
      let code = lower (strip value) in
      if contains allowed_languages code then ok (some code) else err (unsupported value)

  unfoldable pub validate_tags : List Text → Result (List Text)
  unfolding strip_all has_duplicates
  validate_tags tags =
      let cleaned = strip_all tags in
      if has_duplicates (map lower cleaned)
      then err (value_error (text "Duplicate tags are not allowed."))
      else ok cleaned

  unfoldable pub validate_keywords : List Text → Result (List Text)
  unfolding any_blank
  validate_keywords keywords =
      if any_blank keywords
      then err (value_error (text "Empty keywords are not allowed."))
      else ok (map strip keywords)

  -- The validators of `KnowledgeMetadata`: each field in turn.
  unfoldable pub validate_metadata : KnowledgeMetadata → Result KnowledgeMetadata
  validate_metadata m = and_then (validate_language m.language) (λ language.
      and_then (validate_tags m.tags) (λ tags.
        and_then (validate_keywords m.keywords)
          (λ keywords. ok (record m { language = language; tags = tags; keywords = keywords }))))
