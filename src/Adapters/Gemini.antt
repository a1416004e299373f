-- ===== src/Adapters/Gemini.antt =====
-- `GeminiLLMProvider` (app/infrastructure/llm/gemini_provider.py). The client is a parameter.
pub mod Request
use cortex_rag.Base.{
  ℕ, Bool, true, false, not, Option, none, some, List, [], ◌∷◌, map, ◌==◌, if◌then◌else◌, nat_eq,
  select, Text, text, text_eq,
}
use cortex_rag.Exec.{service_unavailable, external_error, new_error, Result, ok, err}
use cortex_rag.Conversation.{Role, system, user, assistant, LlmMessage, LlmCompletion}
use cortex_rag.Chat.Answer.{join}

-- What the client gives: the response's text, or an `APIError` with its code.
pub data Generated : Type 0 where
  response : Option Text → Generated
  api_error : ℕ → Text → Generated

-- A content of the request: its role and its one text part.
pub record Content : Type 0 where
  pub role : Text
  pub part : Text

-- `m.role == Role.SYSTEM`
abbrev pub is_system : Role → Bool
is_system system = true
is_system user = false
is_system assistant = false

-- `m.role in _ROLE_MAP`, and `_ROLE_MAP[m.role]`
abbrev pub in_role_map : Role → Bool
in_role_map r = not (is_system r)

abbrev pub role_map : Role → Text
role_map assistant = text "model"
role_map _ = text "user"

unfoldable pub system_parts : List LlmMessage → List Text
system_parts messages = map (λ m. m.content) (select (λ m. is_system m.role) messages)

abbrev pub content_for : LlmMessage → Content
content_for m = record { role = role_map m.role; part = m.content }

unfoldable pub contents : List LlmMessage → List Content
contents messages = map content_for (select (λ m. in_role_map m.role) messages)

-- `GenerateContentConfig(system_instruction="\n".join(system_parts)) if system_parts else None`
abbrev pub config_for : List Text → Option Text
config_for [] = none
config_for (p ∷ ps) = some (join (10 ∷ []) (p ∷ ps))

-- `response.text or ""`
abbrev pub text_of : Option Text → Text
text_of none = []
text_of (some s) = s

abbrev pub completion_of : Text → Generated → Result LlmCompletion
completion_of model (response s) = ok (record { content = text_of s; model = model })
completion_of model (api_error code message) =
    if code == 429
    then err (
        new_error service_unavailable
          (some (text "Gemini rate limit exceeded. Please try again in a moment.")))
    else err (external_error message)

unfoldable pub complete :
    (List Content → Option Text → Generated) → Text → List LlmMessage → Result LlmCompletion
unfolding system_parts contents
complete generate_content model messages =
    completion_of model (generate_content (contents messages) (config_for (system_parts messages)))
