-- ===== src/Chat/Foreign.antt =====
-- Questions in a conversation that the tenant has not.
use cortex_rag.Base.{
  ◌≡◌, Bool, true, not, Option, none, some, List, [], ◌∷◌, ◌++◌, arith, ◌==◌, nat_eq, select_first,
  Text, text_eq,
}
use cortex_rag.Exec.{ok, err}
use cortex_rag.Job.{Uuid}
use cortex_rag.Conversation.{ConversationRow}
use cortex_rag.World.{World, Env, search_points}
use cortex_rag.Settings.{ChatSettings}
use cortex_rag.Vector.{Embedding, query_task, SearchResult, searched}
use cortex_rag.Chat.Answer.{
  AnswerQuestionInput, of_tenant, conversation_not_found, load_or_create, answer_question,
}
use cortex_rag.Repo.Conversations.{by_id}
use cortex_rag.Repo.Conversations

-- A row of another tenant, or no row.
abbrev pub is_foreign : Text → Option ConversationRow → Bool
is_foreign tenant_id none = true
is_foreign tenant_id (some row) = not (row.tenant_id == tenant_id)

-- Where the search answers, a question in a conversation that does not exist or is another tenant's
-- raises `EntityNotFoundError`, and nothing has changed but for that search of the tenant's points, of
-- which the vector store was told.
pub foreign_is_refused :
    (env : Env) (settings : ChatSettings) (input : AnswerQuestionInput) (w : World)
    (conversation_id : Uuid) (e : Embedding) (results : List SearchResult)
    → input.conversation_id ≡ some conversation_id
    → is_foreign input.tenant_id (select_first (by_id conversation_id) w.conversations) ≡ true
    → env.embed_text input.question query_task ≡ ok e
    → env.search w.vector_calls e.vector input.top_k (of_tenant input.tenant_id) ≡ ok results
    → answer_question env settings input w ≡ (
      err (conversation_not_found env conversation_id),
      record w {
        vector_calls =
            w.vector_calls ++ (searched e.vector input.top_k (of_tenant input.tenant_id) ∷ []);
      },
    )
unfolding answer_question load_or_create search_points Conversations.get Conversations.with_messages
foreign_is_refused env settings input w conversation_id e results asked foreign embedded found =
    ground arith
