-- ===== src/Tests/Chat.antt =====
-- Conversations.
use cortex_rag.Base.{
  ℕ, ◌≡◌, refl, true, none, some, List, [], ◌∷◌, ◌++◌, map, nat_eq, length, drop, select,
  select_first, pos, text, text_eq,
}
use cortex_rag.Exec.{ok, err}
use cortex_rag.Conversation.{
  user, assistant, role_from, Message, Conversation, ConversationRow, message_to_model,
  message_to_entity,
}
use cortex_rag.World.{World, draw_uuid, read_clock, search_points}
use cortex_rag.Settings.{ChatSettings}
use cortex_rag.Repo.Sql.{exists, traverse}
use cortex_rag.Repo.Conversations.{by_id, said_in, any_clash, new_rows}
use cortex_rag.Repo.Conversations.Laws.{AreNumbered, AreNew}
use cortex_rag.Repo.Conversations.RoundTrip.{get-update}
use cortex_rag.Chat.Answer.{
  content_of, AnswerQuestionInput, AnswerQuestionOutput, join, last_window, conversation_not_found,
  load_or_create, to_llm, llm_messages, answer_question,
}
use cortex_rag.Chat.History.{window_is_suffix}
use cortex_rag.Chat.Stored.{answer_is_stored}
use cortex_rag.Chat.Foreign.{is_foreign, foreign_is_refused}
use cortex_rag.Vector.{str_value, searched}
use cortex_rag.Tests.Data.{tenant, env, empty_world}
use cortex_rag.Repo.Conversations

abbrev hello : Message
hello = record { id = 21; role = user; content = text "hello"; created_at = some 7 }

abbrev welcome : Message
welcome = record { id = 22; role = assistant; content = text "welcome"; created_at = some 7 }

abbrev talk : Conversation
talk = record {
  id = 20;
  tenant_id = tenant;
  messages = hello ∷ [];
  created_at = some 7;
  updated_at = some 7;
}

add_ok : (Conversations.add env talk empty_world).0 ≡ ok tt
unfolding Conversations.add Conversations.flush_messages exists new_rows any_clash nat_eq
add_ok = refl

abbrev talk_row : ConversationRow
talk_row = record { id = 20; tenant_id = tenant; created_at = 7; updated_at = 7 }

abbrev spoken : World
spoken = record empty_world {
  db = record empty_world.db {
    conversations = talk_row ∷ [];
    messages = message_to_model 7 20 0 hello ∷ [];
  };
}

row_found : select_first (by_id 20) spoken.conversations ≡ some talk_row
unfolding nat_eq
row_found = refl

spoken_numbered : AreNumbered 0 (select (said_in 20) spoken.messages)
unfolding message_to_model nat_eq
spoken_numbered = (refl, tt)

spoken_read : traverse message_to_entity (select (said_in 20) spoken.messages) ≡ ok (hello ∷ [])
unfolding traverse message_to_entity message_to_model role_from text_eq nat_eq
spoken_read = refl

welcome_new : AreNew (map (λ m. m.id) (select (said_in 20) spoken.messages)) (welcome ∷ [])
unfolding message_to_model nat_eq
welcome_new = (refl, tt)

abbrev longer_talk : Conversation
longer_talk = record talk { messages = hello ∷ welcome ∷ [] }

update_ok : (Conversations.update env longer_talk spoken).0 ≡ ok tt
unfolding Conversations.update Conversations.flush_messages exists new_rows any_clash
    message_to_model nat_eq
update_ok = refl

get-update_example :
    let after = (Conversations.update env longer_talk spoken).1 in
    (Conversations.get tenant 20 after ≡ (ok (some longer_talk), after))
    × (after.messages
        ≡ spoken.messages
          ++ new_rows 7 20 (map (λ m. m.id) (select (said_in 20) spoken.messages)) 1 (welcome ∷ []))
    × AreNumbered 0 (select (said_in 20) after.messages)
get-update_example =
    get-update env spoken talk_row (hello ∷ []) (welcome ∷ []) row_found spoken_numbered spoken_read
      welcome_new update_ok

abbrev settings_for : ℕ → ChatSettings
settings_for n = record { history_window = pos n; system_prompt = text "s" }

window_is_suffix_example :
    (earlier : List Message) × (sent : List Message) × (earlier ++ sent ≡ hello ∷ welcome ∷ [])
    × (length sent ≡ 1)
    × (drop 1 (llm_messages env (settings_for 1) [] (hello ∷ welcome ∷ []) (text "q"))
        ≡ map (to_llm env) sent ++ (record { role = user; content = text "q" } ∷ []))
window_is_suffix_example =
    window_is_suffix env (settings_for 1) [] (text "q") (hello ∷ welcome ∷ []) 0 refl

abbrev ask : AnswerQuestionInput
ask = record { tenant_id = tenant; question = text "q"; conversation_id = none; top_k = 3 }

abbrev reply : AnswerQuestionOutput
reply = record { answer = text "yes"; conversation_id = 100; sources = [] }

replied : (answer_question env (settings_for 2) ask empty_world).0 ≡ ok reply
unfolding answer_question load_or_create llm_messages last_window draw_uuid read_clock search_points
    Conversations.add Conversations.flush_messages exists new_rows any_clash join content_of
    message_to_model nat_eq
replied = refl

answer_is_stored_example :
    let after = (answer_question env (settings_for 2) ask empty_world).1 in
    Conversations.get tenant 100 after ≡ (
      ok (
          some (record {
            id = 100;
            tenant_id = tenant;
            messages =
                record { id = 101; role = user; content = text "q"; created_at = some 7 }
                ∷ record { id = 102; role = assistant; content = text "yes"; created_at = some 7 }
                ∷ [];
            created_at = some 7;
            updated_at = some 7;
          })),
      after,
    )
answer_is_stored_example =
    answer_is_stored env (settings_for 2) ask empty_world reply refl replied refl

abbrev intrusion : AnswerQuestionInput
intrusion = record ask { tenant_id = text "evil"; conversation_id = some 20 }

is_intrusion : is_foreign (text "evil") (select_first (by_id 20) spoken.conversations) ≡ true
unfolding text_eq nat_eq
is_intrusion = refl

foreign_is_refused_example : answer_question env (settings_for 2) intrusion spoken ≡ (
  err (conversation_not_found env 20),
  record spoken {
    vector_calls =
        searched (1 ∷ []) intrusion.top_k ((text "tenant_id", str_value (text "evil")) ∷ []) ∷ [];
  },
)
foreign_is_refused_example =
    foreign_is_refused env (settings_for 2) intrusion spoken 20
      (record { vector = 1 ∷ []; model = text "m" }) [] refl is_intrusion refl refl
