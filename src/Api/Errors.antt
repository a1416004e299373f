-- ===== src/Api/Errors.antt =====
-- `register_exception_handlers` (app/api/errors.py).
use cortex_rag.Base.{ℕ, ◌≡◌, Bool, true, false, Option, some, arith, Text, text}
use cortex_rag.Exec.{
  ErrorClass, domain_error, entity_not_found, validation, conflict, service_unavailable, Exception,
  domain, value_error, not_implemented, integrity_error, external_error,
}

pub record JsonResponse : Type 0 where
  pub status_code : ℕ
  pub error : Text
  pub detail : Option Text

-- `type(exc).__name__`
abbrev pub class_name : ErrorClass → Text
class_name domain_error = text "DomainError"
class_name entity_not_found = text "EntityNotFoundError"
class_name validation = text "ValidationError"
class_name conflict = text "ConflictError"
class_name service_unavailable = text "ServiceUnavailableError"

-- `_STATUS_MAP.get(type(exc), 400)`
abbrev pub http_status : ErrorClass → ℕ
http_status entity_not_found = 404
http_status validation = 422
http_status conflict = 409
http_status service_unavailable = 503
http_status domain_error = 400

-- The body of `_handle_unexpected`, whatever was raised.
abbrev pub unexpected : JsonResponse
unexpected = record {
  status_code = 500;
  error = text "InternalServerError";
  detail = some (text "An unexpected error occurred.");
}

-- The handler that the exception's class selects. What a request's validation raises never reaches
-- the program's functions, and is not among these.
unfoldable pub handle : Exception → JsonResponse
handle (domain c message) = record {
  status_code = http_status c;
  error = class_name c;
  detail = some message;
}
handle not_implemented = record {
  status_code = 501;
  error = text "NotImplemented";
  detail = some (text "This feature is not implemented.");
}
handle (value_error _) = unexpected
handle (integrity_error _) = unexpected
handle (external_error _) = unexpected

abbrev pub is_domain : Exception → Bool
is_domain (domain _ _) = true
is_domain _ = false

-- Two exceptions that are answered with one status are answered with one error name.
pub status_tells_error :
    (e f : Exception)
    → (handle e).status_code ≡ (handle f).status_code
    → (handle e).error ≡ (handle f).error
unfolding handle
status_tells_error (domain c m) f h = ground arith
status_tells_error not_implemented f h = ground arith
status_tells_error (value_error m) f h = ground arith
status_tells_error (integrity_error m) f h = ground arith
status_tells_error (external_error m) f h = ground arith

-- What is raised by Python, by the database or by a service never shows: the response to such an
-- exception is that to any other exception with the same status, whatever their texts are.
pub internals_are_hidden :
    (e f : Exception)
    → is_domain e ≡ false
    → (handle e).status_code ≡ (handle f).status_code
    → handle e ≡ handle f
unfolding handle
internals_are_hidden e f internal h = ground arith
