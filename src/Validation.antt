-- ===== src/Validation.antt =====
-- Upload validation (app/application/documents/validation.py).
pub mod Laws
use cortex_rag.Base.{not, some, ◌++◌, if◌then◌else◌, length, Text, text}
use cortex_rag.Base.Int.{gtb_ℤ, signed_decimal}
use cortex_rag.Base.Str.{is_empty, contains, has_char, after_last_dot}
use cortex_rag.Exec.{validation, Exception, new_error, Result, ok, err}
use cortex_rag.World.{Bytes, Env}
use cortex_rag.Settings.{UploadSettings, max_size_bytes}

module _ (env : Env) (settings : UploadSettings) where
  abbrev invalid : Text → Exception
  invalid m = new_error validation (some m)

  abbrev too_large : Exception
  too_large =
      invalid
        (text "File exceeds max size of " ++ (signed_decimal settings.max_size_mb ++ text " MB."))

  abbrev bad_extension : Text → Exception
  bad_extension extension = invalid (
      text "Extension '."
      ++ (extension
          ++ (text "' is not allowed. Allowed: "
              ++ (env.repr_list settings.allowed_extensions ++ text "."))))

  abbrev bad_mime_type : Text → Exception
  bad_mime_type content_type = invalid (
      text "MIME type '"
      ++ (content_type
          ++ (text "' is not allowed. Allowed: "
              ++ (env.repr_list settings.allowed_mime_types ++ text "."))))

  -- Returns the extension, in lower case.
  unfoldable pub validate_upload : Text → Bytes → Text → Result Text
  validate_upload original_filename content content_type =
      let extension = env.lower (after_last_dot original_filename) in
      if is_empty content
      then err (invalid (text "Uploaded file is empty."))
      else if gtb_ℤ (length content) (max_size_bytes settings)
      then err too_large
      else if not (has_char b'.' original_filename)
      then err (invalid (text "Filename has no extension."))
      else if not (contains settings.allowed_extensions extension)
      then err (bad_extension extension)
      else if not (contains settings.allowed_mime_types content_type)
      then err (bad_mime_type content_type)
      else ok extension
