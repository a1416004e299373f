-- ===== src/Adapters/Gemini/Request.antt =====
-- What Gemini is asked, and what a refusal of it does to a chat.
use cortex_rag.Base.{
  ◌+◌, ◌≡◌, refl, ap, ◌∙◌, Bool, Option, none, some, List, [], ◌∷◌, map, arith, nat_eq, length,
  Text, text,
}
use cortex_rag.Exec.{service_unavailable, Exception, new_error, ok, err}
use cortex_rag.Conversation.{LlmMessage, Message}
use cortex_rag.Vector.{Embedding, query_task, SearchResult}
use cortex_rag.World.{World, Env, draw_uuid, search_points}
use cortex_rag.Settings.{ChatSettings}
use cortex_rag.Repo.Sql.Pages.{all}
use cortex_rag.Chat.Answer.{
  content_of, AnswerQuestionInput, join, of_tenant, load_or_create, llm_messages, answer_question,
}
use cortex_rag.Api.Errors.{handle}
use cortex_rag.Adapters.Gemini.{
  Generated, api_error, Content, in_role_map, system_parts, contents, config_for, completion_of,
}
use cortex_rag.Adapters.Gemini

-- Every message goes into the request once, as a part of the instruction or as a content.
pub length-contents :
    (ms : List LlmMessage) → length (contents ms) + length (system_parts ms) ≡ length ms
unfolding contents system_parts
length-contents [] = omega arith
length-contents (m ∷ ms) = ground (arith, length-contents ms)

abbrev pub no_system : List Message → Bool
no_system = all (λ m. in_role_map m.role)

-- Where the search answers and Gemini reports code 429 whatever it is asked, a question in a new
-- conversation is answered by HTTP status 503, and nothing is stored in any table.
pub rate_limit_is_503 :
    (env : Env) (settings : ChatSettings) (input : AnswerQuestionInput) (w : World)
    (generate_content : List Content → Option Text → Generated) (model message : Text)
    (e : Embedding) (results : List SearchResult)
    → env.embed_text input.question query_task ≡ ok e
    → env.search w.vector_calls e.vector input.top_k (of_tenant input.tenant_id) ≡ ok results
    → input.conversation_id ≡ none
    → ((ms : List LlmMessage) → env.complete ms ≡ Gemini.complete generate_content model ms)
    → ((cs : List Content) → (i : Option Text) → generate_content cs i ≡ api_error 429 message)
    → (exc : Exception) × ((answer_question env settings input w).0 ≡ err exc)
      × ((handle exc).status_code ≡ 503)
      × ((answer_question env settings input w).1.db ≡ w.db)
unfolding answer_question load_or_create draw_uuid search_points Gemini.complete handle nat_eq
rate_limit_is_503 env settings input w generate_content model message e results embedded found fresh
      uses limited =
    let ms =
      llm_messages env settings (join (10 ∷ 10 ∷ []) (map (content_of) results)) []
        input.question in
    let exc =
      new_error service_unavailable
        (some (text "Gemini rate limit exceeded. Please try again in a moment.")) in
    let refused : env.complete ms ≡ err exc =
      uses ms ∙ ap (completion_of model) (limited (contents ms) (config_for (system_parts ms))) in
    (exc, ground (arith, refused), refl, ground (arith, refused))
