-- ===== src/Chat/Stored.antt =====
-- What an answer leaves in the conversation.
use cortex_rag.Base.{
  ◌+◌, ◌≡◌, refl, none, some, List, [], ◌∷◌, ◌++◌, map, arith, select_first, text,
}
use cortex_rag.Exec.{Result, ok, err}
use cortex_rag.Conversation.{user, assistant, Conversation}
use cortex_rag.World.{World, Env, draw_uuid, read_clock, search_points}
use cortex_rag.Settings.{ChatSettings}
use cortex_rag.Vector.{Embedding, query_task, str_value, VectorCall, searched}
use cortex_rag.Repo.Conversations.{said_in}
use cortex_rag.Repo.Conversations.Laws.{stamped}
use cortex_rag.Repo.Conversations.RoundTrip.{get-add}
use cortex_rag.Chat.Answer.{
  AnswerQuestionInput, AnswerQuestionOutput, load_or_create, answer_question,
}
use cortex_rag.Repo.Conversations

module _ (env : Env) (settings : ChatSettings) (input : AnswerQuestionInput) (w : World)
    (answer : AnswerQuestionOutput) (starts : input.conversation_id ≡ none)
    (answered : (answer_question env settings input w).0 ≡ ok answer) where
  -- The conversation with its first turn.
  abbrev first_turn : Conversation
  first_turn = record {
    id = env.uuid4 w.draws;
    tenant_id = input.tenant_id;
    messages =
        record {
          id = env.uuid4 (w.draws + 1);
          role = user;
          content = input.question;
          created_at = some (env.now w.readings);
        }
        ∷ record {
          id = env.uuid4 (w.draws + 2);
          role = assistant;
          content = answer.answer;
          created_at = some (env.now w.readings);
        }
        ∷ [];
    created_at = none;
    updated_at = none;
  }

  abbrev before_store : List VectorCall → World
  before_store calls = record w {
    vector_calls = calls;
    draws = w.draws + 3;
    readings = w.readings + 1;
  }

  abbrev after : World
  after = (answer_question env settings input w).1

  answer_run :
      (embedded : Result Embedding)
      → env.embed_text input.question query_task ≡ embedded
      → (calls : List VectorCall) × (answer.conversation_id ≡ first_turn.id)
        × ((Conversations.add env first_turn (before_store calls)).0 ≡ ok tt)
        × (after ≡ (Conversations.add env first_turn (before_store calls)).1)
  unfolding answer_question load_or_create draw_uuid read_clock search_points
  answer_run (err x) same = ground arith
  answer_run (ok e) same = (
    w.vector_calls
        ++ (searched e.vector input.top_k ((text "tenant_id", str_value input.tenant_id) ∷ [])
            ∷ []),
    ground arith,
    ground arith,
    ground arith,
  )

  -- A question that starts a conversation, whose new id no message had, and that is answered, leaves
  -- the conversation under the id that is returned: it reads back for the tenant as the question of
  -- the user and then the answer of the assistant, with the server's times.
  pub answer_is_stored :
      select_first (said_in (env.uuid4 w.draws)) w.messages ≡ none
      → Conversations.get input.tenant_id answer.conversation_id after ≡ (
        ok (
            some (record first_turn {
              messages = map (stamped w.server_now) first_turn.messages;
              created_at = some w.server_now;
              updated_at = some w.server_now;
            })),
        after,
      )
  answer_is_stored unused =
      let (calls, same, stored, state) =
        answer_run (env.embed_text input.question query_task) refl in
      rw same (rw state (get-add env (before_store calls) first_turn stored unused))
