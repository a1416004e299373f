-- ===== src/Validation/Laws.antt =====
-- When an upload is accepted.
use cortex_rag.Base.{◌≡◌, ◌↔◌, true, false, arith, length, Text}
use cortex_rag.Base.Int.{gtb_ℤ}
use cortex_rag.Base.Str.{is_empty, contains, has_char, after_last_dot}
use cortex_rag.Exec.{ok}
use cortex_rag.World.{Bytes, Env}
use cortex_rag.Settings.{UploadSettings, max_size_bytes}
use cortex_rag.Validation.{validate_upload}

-- An upload is accepted exactly when it has content that fits the limit, its name has a dot, what
-- follows the last dot is an allowed extension in lower case, and its MIME type is allowed; the
-- result is then that extension.
pub validate_upload_iff :
    (env : Env) (settings : UploadSettings) (name : Text) (content : Bytes) (mime ext : Text)
    → (validate_upload env settings name content mime ≡ ok ext) ↔ (
        (is_empty content ≡ false)
        × (gtb_ℤ (length content) (max_size_bytes settings) ≡ false)
        × (has_char b'.' name ≡ true)
        × (ext ≡ env.lower (after_last_dot name))
        × (contains settings.allowed_extensions ext ≡ true)
        × (contains settings.allowed_mime_types mime ≡ true))
unfolding validate_upload
validate_upload_iff env settings name content mime ext = (λ h. ground arith, λ h. ground arith)
