-- ===== src/SourceType.antt =====
-- The kinds of knowledge source (app/domain/documents/source_type.py).
use cortex_rag.Base.{◌≡◌, refl, List, [], ◌∷◌, ◌==◌, if◌then◌else◌, Text, text, text_eq}
use cortex_rag.Base.Str.{lstrip_dots}
use cortex_rag.Exec.{Result, ok}
use cortex_rag.Status.{from_value}

pub data SourceType : Type 0 where
  pdf word excel powerpoint markdown text_file html image email notion confluence github database
        api web :
      SourceType

abbrev pub source_type_value : SourceType → Text
source_type_value pdf = text "pdf"
source_type_value word = text "word"
source_type_value excel = text "excel"
source_type_value powerpoint = text "powerpoint"
source_type_value markdown = text "markdown"
source_type_value text_file = text "text"
source_type_value html = text "html"
source_type_value image = text "image"
source_type_value email = text "email"
source_type_value notion = text "notion"
source_type_value confluence = text "confluence"
source_type_value github = text "github"
source_type_value database = text "database"
source_type_value api = text "api"
source_type_value web = text "web"

abbrev source_type_members : List SourceType
source_type_members =
    pdf ∷ word ∷ excel ∷ powerpoint ∷ markdown ∷ text_file ∷ html ∷ image ∷ email ∷ notion
    ∷ confluence ∷ github ∷ database ∷ api ∷ web ∷ []

-- `SourceType(s)`
unfoldable pub source_type_from : Text → Result SourceType
source_type_from = from_value (text "SourceType") source_type_value source_type_members

-- What a member is stored as reads back as that member.
pub source_type_from-value : (m : SourceType) → source_type_from (source_type_value m) ≡ ok m
unfolding source_type_from text_eq
source_type_from-value pdf = refl
source_type_from-value word = refl
source_type_from-value excel = refl
source_type_from-value powerpoint = refl
source_type_from-value markdown = refl
source_type_from-value text_file = refl
source_type_from-value html = refl
source_type_from-value image = refl
source_type_from-value email = refl
source_type_from-value notion = refl
source_type_from-value confluence = refl
source_type_from-value github = refl
source_type_from-value database = refl
source_type_from-value api = refl
source_type_from-value web = refl

-- `_EXTENSION_MAP`
unfoldable pub extension_map : List (Text × SourceType)
extension_map =
    (text "pdf", pdf)
    ∷ (text "doc", word)
    ∷ (text "docx", word)
    ∷ (text "rtf", word)
    ∷ (text "xls", excel)
    ∷ (text "xlsx", excel)
    ∷ (text "csv", excel)
    ∷ (text "ppt", powerpoint)
    ∷ (text "pptx", powerpoint)
    ∷ (text "md", markdown)
    ∷ (text "markdown", markdown)
    ∷ (text "txt", text_file)
    ∷ (text "html", html)
    ∷ (text "htm", html)
    ∷ (text "png", image)
    ∷ (text "jpg", image)
    ∷ (text "jpeg", image)
    ∷ (text "gif", image)
    ∷ (text "webp", image)
    ∷ (text "tiff", image)
    ∷ (text "eml", email)
    ∷ (text "msg", email)
    ∷ []

abbrev pub get_or_text : Text → List (Text × SourceType) → SourceType
get_or_text k [] = text_file
get_or_text k ((j, t) ∷ m) = if k == j then t else get_or_text k m

-- `SourceType.from_extension`; `lower` is `str.lower`.
unfoldable pub from_extension : (Text → Text) → Text → SourceType
unfolding lstrip_dots extension_map
from_extension lower extension = get_or_text (lower (lstrip_dots extension)) extension_map
