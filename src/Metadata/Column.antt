-- ===== src/Metadata/Column.antt =====
-- The JSON object in which a document's metadata is stored, `model_dump(mode="json")` and
-- `KnowledgeMetadata.model_validate` of it (app/domain/documents/metadata.py).
use cortex_rag.Base.{
  ◌≡◌, refl, Bool, true, false, ◌||◌, not, Option, List, [], ◌∷◌, arith, Text, text,
}
use cortex_rag.Exec.{value_error, Result, ok, err, is_ok, and_then}
use cortex_rag.Job.{Time}
use cortex_rag.Metadata.{SecurityLevel, KnowledgeMetadata, validate_metadata}

-- A JSON value: a string, or any other with its text.
pub data JsonValue : Type 0 where
  json_string json_other : Text → JsonValue

-- `dict[str, Any]` of JSON values.
abbrev pub JsonDict : Type 0
JsonDict = List (Text × JsonValue)

-- The object in the column. Every writer, the code's dump and the migration, gives it these keys and
-- no other, with values of their fields' types but under `custom_properties`, where the migration puts
-- values of any kind. A datetime stands as its instant.
pub record MetadataColumn : Type 0 where
  pub language : Option Text
  pub author : Option Text
  pub organization : Option Text
  pub department : Option Text
  pub category : Option Text
  pub tags : List Text
  pub keywords : List Text
  pub security_level : Option SecurityLevel
  pub retention_policy : Option Text
  pub created_by_application : Option Text
  pub document_created_at : Option Time
  pub document_modified_at : Option Time
  pub custom_properties : JsonDict

-- `dict[str, str]`: a value that is no string is refused.
abbrev pub string_of : JsonValue → Result Text
string_of (json_string s) = ok s
string_of (json_other _) = err (value_error (text "Input should be a valid string"))

unfoldable pub strings_of : JsonDict → Result (List (Text × Text))
strings_of [] = ok []
strings_of ((k, v) ∷ d) =
    and_then (string_of v) (λ s. and_then (strings_of d) (λ rest. ok ((k, s) ∷ rest)))

unfoldable pub json_strings : List (Text × Text) → JsonDict
json_strings [] = []
json_strings ((k, s) ∷ d) = (k, json_string s) ∷ json_strings d

abbrev typed : MetadataColumn → List (Text × Text) → KnowledgeMetadata
typed c custom = record {
  language = c.language;
  author = c.author;
  organization = c.organization;
  department = c.department;
  category = c.category;
  tags = c.tags;
  keywords = c.keywords;
  security_level = c.security_level;
  retention_policy = c.retention_policy;
  created_by_application = c.created_by_application;
  document_created_at = c.document_created_at;
  document_modified_at = c.document_modified_at;
  custom_properties = custom;
}

-- `KnowledgeMetadata.model_validate(model.meta)`, with `str.lower` for the validators.
unfoldable pub model_validate : (Text → Text) → MetadataColumn → Result KnowledgeMetadata
unfolding strings_of
model_validate lower c =
    and_then (strings_of c.custom_properties) (λ custom. validate_metadata lower (typed c custom))

-- `metadata.model_dump(mode="json")`
unfoldable pub model_dump : KnowledgeMetadata → MetadataColumn
unfolding json_strings
model_dump m = record {
  language = m.language;
  author = m.author;
  organization = m.organization;
  department = m.department;
  category = m.category;
  tags = m.tags;
  keywords = m.keywords;
  security_level = m.security_level;
  retention_policy = m.retention_policy;
  created_by_application = m.created_by_application;
  document_created_at = m.document_created_at;
  document_modified_at = m.document_modified_at;
  custom_properties = json_strings m.custom_properties;
}

-- Strings read back as they were dumped.
pub strings_of-json_strings : (d : List (Text × Text)) → strings_of (json_strings d) ≡ ok d
unfolding strings_of json_strings
strings_of-json_strings [] = refl
strings_of-json_strings ((k, s) ∷ d) = rw (strings_of-json_strings d) refl

-- Reading a dump runs the validators on what was dumped.
pub model_validate-model_dump :
    (lower : Text → Text) (m : KnowledgeMetadata)
    → model_validate lower (model_dump m) ≡ validate_metadata lower m
unfolding model_validate model_dump
model_validate-model_dump lower m = rw (strings_of-json_strings m.custom_properties) refl

-- Some value is no string.
abbrev pub is_string : JsonValue → Bool
is_string (json_string _) = true
is_string (json_other _) = false

abbrev pub has_other : JsonDict → Bool
has_other [] = false
has_other ((k, v) ∷ d) = not (is_string v) || has_other d

strings_refused : (d : JsonDict) → has_other d ≡ true → is_ok (strings_of d) ≡ false
unfolding strings_of
strings_refused [] h = ground arith
strings_refused ((k, json_string s) ∷ d) h = ground (arith, strings_refused d h)
strings_refused ((k, json_other s) ∷ d) h = refl

-- An object with a custom property that is no string is refused.
pub other_is_refused :
    (lower : Text → Text) (c : MetadataColumn)
    → has_other c.custom_properties ≡ true
    → is_ok (model_validate lower c) ≡ false
unfolding model_validate
other_is_refused lower c h = ground (arith, strings_refused c.custom_properties h)
