-- ===== src/Tests/Http.antt =====
-- Gemini and the HTTP responses.
use cortex_rag.Base.{◌≡◌, refl, Option, none, List, [], ◌∷◌, pos, Text, text}
use cortex_rag.Exec.{Exception, value_error, external_error, err}
use cortex_rag.Conversation.{user, assistant, Message}
use cortex_rag.World.{Env}
use cortex_rag.Settings.{ChatSettings}
use cortex_rag.Chat.Answer.{AnswerQuestionInput, answer_question}
use cortex_rag.Api.Errors.{handle}
use cortex_rag.Adapters.Gemini.{Generated, api_error, Content}
use cortex_rag.Adapters.Gemini.Request.{rate_limit_is_503}
use cortex_rag.Tests.Data.{tenant, env, empty_world}
use cortex_rag.Adapters.Gemini

-- Every request is refused.
abbrev overloaded : List Content → Option Text → Generated
overloaded _ _ = api_error 429 (text "quota")

abbrev busy : Env
busy = record env { complete = Gemini.complete overloaded (text "m") }

abbrev settings : ChatSettings
settings = record { history_window = pos 2; system_prompt = text "s" }

abbrev ask : AnswerQuestionInput
ask = record { tenant_id = tenant; question = text "q"; conversation_id = none; top_k = 3 }

rate_limit_is_503_example :
    (exc : Exception) × ((answer_question busy settings ask empty_world).0 ≡ err exc)
    × ((handle exc).status_code ≡ 503)
    × ((answer_question busy settings ask empty_world).1.db ≡ empty_world.db)
rate_limit_is_503_example =
    rate_limit_is_503 busy settings ask empty_world overloaded (text "m") (text "quota")
      (record { vector = 1 ∷ []; model = text "m" }) [] refl refl refl (λ ms. refl) (λ cs i. refl)

abbrev said : List Message
said =
    record { id = 1; role = user; content = text "a"; created_at = none }
    ∷ record { id = 2; role = assistant; content = text "b"; created_at = none }
    ∷ []

same_status :
    (handle (value_error (text "a"))).status_code ≡ (handle (external_error (text "b"))).status_code
unfolding handle
same_status = refl
