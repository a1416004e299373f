-- ===== src/Chat/Answer.antt =====
-- `SemanticSearchUseCase.execute` and `AnswerQuestionUseCase.execute`, with their inputs and outputs
-- (search/dtos.py, chat/dtos.py).
use cortex_rag.Repo.Conversations
use cortex_rag.Base.{
  ℕ, zero, suc, ◌-◌, Option, none, some, List, [], ◌∷◌, ◌++◌, map, length, drop, ℤ, pos, negsuc,
  Text, text,
}
use cortex_rag.Base.Str.{decimal}
use cortex_rag.Exec.{entity_not_found, Exception, new_error, pure, lift, or_raise, ◌>>=◌, ◌>>◌}
use cortex_rag.Job.{Uuid, Time}
use cortex_rag.Conversation.{system, user, assistant, LlmMessage, Message, Conversation}
use cortex_rag.Vector.{
  Float, query_task, Value, str_value, int_value, other_value, Payload, payload_get, SearchResult,
}
use cortex_rag.World.{Action, Env, draw_uuid, read_clock, search_points}
use cortex_rag.Settings.{ChatSettings}

-- `str(value)`
unfoldable pub str_of_value : Value → Text
unfolding decimal
str_of_value (str_value s) = s
str_of_value (int_value n) = decimal n
str_of_value (other_value s) = s

-- `str(payload.get("content", ""))`
unfoldable pub content_of : SearchResult → Text
unfolding str_of_value payload_get
content_of result = str_of_value (payload_get (text "content") (str_value []) result.payload)

pub record SearchHit : Type 0 where
  pub chunk_id : Uuid
  pub score : Float
  pub content : Text

pub record SourceReference : Type 0 where
  pub chunk_id : Uuid
  pub score : Float

pub record AnswerQuestionInput : Type 0 where
  pub tenant_id : Text
  pub question : Text
  pub conversation_id : Option Uuid
  pub top_k : ℕ

pub record AnswerQuestionOutput : Type 0 where
  pub answer : Text
  pub conversation_id : Uuid
  pub sources : List SourceReference

-- `separator.join(parts)`
unfoldable pub join : Text → List Text → Text
join separator [] = []
join separator (s ∷ []) = s
join separator (s ∷ t ∷ rest) = s ++ (separator ++ join separator (t ∷ rest))

-- `xs[-window:]`: from index `len(xs) - window` for a positive window, all of `xs` for 0, and from
-- index `-window` for a negative one.
unfoldable pub last_window {ℓ} : {A : Type ℓ} → ℤ → List A → List A
last_window (pos zero) xs = xs
last_window (pos (suc n)) xs = drop (length xs - suc n) xs
last_window (negsuc n) xs = drop (suc n) xs

abbrev pub of_tenant : Text → Payload
of_tenant tenant_id = (text "tenant_id", str_value tenant_id) ∷ []

module _ (env : Env) where
  -- Embeds the text as a query and searches the tenant's points.
  abbrev pub retrieve : Text → Text → ℕ → Action (List SearchResult)
  retrieve tenant_id query top_k = do
    e ← lift (env.embed_text query query_task)
    search_points env e.vector top_k (of_tenant tenant_id)

  unfoldable pub semantic_search : Text → Text → ℕ → Action (List SearchHit)
  unfolding search_points content_of
  semantic_search tenant_id query top_k = do
    results ← retrieve tenant_id query top_k
    pure (map (λ r. record { chunk_id = r.id; score = r.score; content = content_of r }) results)

  abbrev pub conversation_not_found : Uuid → Exception
  conversation_not_found conversation_id =
      new_error entity_not_found
        (some (text "Conversation " ++ (env.uuid_str conversation_id ++ text " not found.")))

  -- `_load_or_create_conversation`
  unfoldable pub load_or_create : Text → Option Uuid → Action Conversation
  unfolding draw_uuid Conversations.get
  load_or_create tenant_id none w =
      ((draw_uuid env >>= λ id. pure (record {
        id = id;
        tenant_id = tenant_id;
        messages = [];
        created_at = none;
        updated_at = none;
      }))
        w)
  load_or_create tenant_id (some conversation_id) w =
      (Conversations.get tenant_id conversation_id
          >>= or_raise (conversation_not_found conversation_id))
        w

  -- `LLMMessage(role=m.role, content=m.content)`
  abbrev pub to_llm : Message → LlmMessage
  to_llm m = record { role = m.role; content = m.content }

  -- The messages that the LLM is given.
  unfoldable pub llm_messages : ChatSettings → Text → List Message → Text → List LlmMessage
  unfolding last_window
  llm_messages settings context messages question =
      record {
        role = system;
        content = settings.system_prompt ++ (10 ∷ 10 ∷ text "Context:" ++ (10 ∷ context));
      }
      ∷ (map to_llm (last_window settings.history_window messages)
          ++ (record { role = user; content = question } ∷ []))

  -- `conversation.messages.append(…)`, twice
  abbrev pub with_turn : Text → Text → Uuid → Uuid → Time → Conversation → Conversation
  with_turn question answer question_id answer_id now c = record c {
    messages =
        c.messages
        ++ (record { id = question_id; role = user; content = question; created_at = some now }
            ∷ record { id = answer_id; role = assistant; content = answer; created_at = some now }
            ∷ []);
  }

  -- `update` for a conversation that was asked for, `add` for a new one
  abbrev pub store_turn : Option Uuid → Conversation → Action (Unit {0})
  store_turn none c = Conversations.add env c
  store_turn (some _) c = Conversations.update env c

  unfoldable pub answer_question : ChatSettings → AnswerQuestionInput → Action AnswerQuestionOutput
  unfolding search_points content_of join load_or_create llm_messages draw_uuid read_clock
  answer_question settings input = do
    results ← retrieve input.tenant_id input.question input.top_k
    let context = join (10 ∷ 10 ∷ []) (map content_of results)
    conversation ← load_or_create input.tenant_id input.conversation_id
    completion ←
        lift (env.complete (llm_messages settings context conversation.messages input.question))
    now ← read_clock env
    question_id ← draw_uuid env
    answer_id ← draw_uuid env
    let turn = with_turn input.question completion.content question_id answer_id now conversation
    store_turn input.conversation_id turn
    pure (record {
      answer = completion.content;
      conversation_id = turn.id;
      sources = map (λ r. record { chunk_id = r.id; score = r.score }) results;
    })
