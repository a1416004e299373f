-- ===== src/Settings.antt =====
-- The settings that the core reads (app/config/settings.py) and the parser of list values
-- (app/shared/parsing.py).
pub mod Laws
pub mod Groups
use cortex_rag.Base.{
  Bool, false, List, [], ◌∷◌, map, ◌==◌, if◌then◌else◌, nat_eq, ℤ, Text, text, text_eq,
}
use cortex_rag.Base.Int.{scale}
use cortex_rag.Base.Str.{is_empty, lstrip_dots, strip, split_commas}
use cortex_rag.Exec.{value_error, Result, ok, err, and_then}

-- A raw value of the configuration: a list or tuple of texts, a text, or anything else.
pub data RawValue : Type 0 where
  items : List Text → RawValue
  raw_text : Text → RawValue
  other : RawValue

-- `[item.strip() for item in parts if item.strip()]`
unfoldable pub strip_items : List Text → List Text
strip_items [] = []
strip_items (part ∷ parts) =
    let rest = strip_items parts in if is_empty (strip part) then rest else strip part ∷ rest

abbrev pub starts_list : Text → Bool
starts_list [] = false
starts_list (c ∷ _) = c == b'['

-- What `json.loads` gives is a parameter, and so is `str.lower`.
module _ (json_loads : Text → Result RawValue) where
  unfoldable pub parse_str_list : RawValue → Result RawValue
  unfolding strip_items split_commas
  parse_str_list (items xs) = ok (items xs)
  parse_str_list (raw_text value) =
      let raw = strip value in
      if is_empty raw
      then ok (items [])
      else if starts_list raw
      then json_loads raw
      else ok (items (strip_items (split_commas raw)))
  parse_str_list other = ok other

  -- The check that pydantic makes on a field of type `list[str]`.
  abbrev pub require_items : RawValue → Result (List Text)
  require_items (items xs) = ok xs
  require_items _ = err (value_error (text "Input should be a valid list"))

  -- `_parse_lists`, then that check.
  unfoldable pub parse_lists : RawValue → Result (List Text)
  unfolding parse_str_list
  parse_lists value = and_then (parse_str_list value) require_items

  module _ (lower : Text → Text) where
    -- `_normalize_extensions`
    unfoldable pub normalize_extensions : List Text → List Text
    unfolding lstrip_dots
    normalize_extensions = map (λ ext. lower (lstrip_dots ext))

    unfoldable pub read_allowed_extensions : RawValue → Result (List Text)
    unfolding parse_lists normalize_extensions
    read_allowed_extensions value =
        and_then (parse_lists value) (λ xs. ok (normalize_extensions xs))

pub record UploadSettings : Type 0 where
  pub max_size_mb : ℤ
  pub allowed_extensions : List Text
  pub allowed_mime_types : List Text

-- `UploadSettings.max_size_bytes`
abbrev pub max_size_bytes : UploadSettings → ℤ
max_size_bytes s = scale (scale s.max_size_mb 1024) 1024

pub record ProcessingSettings : Type 0 where
  pub max_retries : ℤ
  pub default_priority : ℤ

pub record ChatSettings : Type 0 where
  pub history_window : ℤ
  pub system_prompt : Text
