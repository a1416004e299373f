-- ===== src/Repo/Conversations.antt =====
-- `SqlAlchemyConversationRepository` (conversation_repository.py).
pub mod Laws
pub mod RoundTrip
use cortex_rag.Base.{
  ℕ, ◌+◌, Bool, false, ◌&&◌, ◌||◌, Option, none, some, List, [], ◌∷◌, ◌++◌, map, ◌==◌,
  if◌then◌else◌, ltb, nat_eq, select, select_first, Text, text_eq,
}
use cortex_rag.Exec.{integrity_error, ok, err, and_then, gets, ◌>>=◌, ◌>>◌, modify, raise_if}
use cortex_rag.Job.{Uuid, Time}
use cortex_rag.Conversation.{
  Message, Conversation, ConversationRow, MessageRow, message_to_model, message_to_entity,
}
use cortex_rag.World.{World, Action, Env}
use cortex_rag.Repo.Sql.{exists, traverse}

abbrev pub by_id : Uuid → ConversationRow → Bool
by_id conversation_id c = c.id == conversation_id

abbrev pub said_in : Uuid → MessageRow → Bool
said_in conversation_id m = m.conversation_id == conversation_id

-- The primary key and the unique index `ix_messages_conversation_seq`.
abbrev pub clashes : MessageRow → MessageRow → Bool
clashes new m = m.id == new.id || (m.conversation_id == new.conversation_id && m.seq == new.seq)

-- Rows that would break a key, with the table or among themselves.
unfoldable pub any_clash : List MessageRow → List MessageRow → Bool
unfolding exists
any_clash [] table = false
any_clash (new ∷ rest) table =
    exists (clashes new) table || exists (clashes new) rest || any_clash rest table

abbrev pub is_one_of : List Uuid → Uuid → Bool
is_one_of [] i = false
is_one_of (j ∷ js) i = j == i || is_one_of js i

-- `for seq, message in enumerate(messages)`, from `seq` on, without the ids in `existing_ids`.
unfoldable pub new_rows : Time → Uuid → List Uuid → ℕ → List Message → List MessageRow
new_rows server_now conversation_id existing_ids seq [] = []
new_rows server_now conversation_id existing_ids seq (m ∷ messages) =
    let rest = new_rows server_now conversation_id existing_ids (seq + 1) messages in
    if is_one_of existing_ids m.id
    then rest
    else message_to_model server_now conversation_id seq m ∷ rest

-- A row into rows that are in ascending order of `seq`.
unfoldable pub insert_asc : MessageRow → List MessageRow → List MessageRow
insert_asc a [] = a ∷ []
insert_asc a (x ∷ xs) = if ltb x.seq a.seq then x ∷ insert_asc a xs else a ∷ x ∷ xs

-- ORDER BY seq
unfoldable pub sort_by_seq : List MessageRow → List MessageRow
unfolding insert_asc
sort_by_seq [] = []
sort_by_seq (x ∷ xs) = insert_asc x (sort_by_seq xs)

abbrev pub append_conversation : ConversationRow → World → World
append_conversation c w = record w {
  db = record w.db { conversations = w.conversations ++ (c ∷ []) };
}

abbrev pub append_messages : List MessageRow → World → World
append_messages rows w = record w { db = record w.db { messages = w.messages ++ rows } }

abbrev pub new_conversation_row : Time → Conversation → ConversationRow
new_conversation_row server_now conversation = record {
  id = conversation.id;
  tenant_id = conversation.tenant_id;
  created_at = server_now;
  updated_at = server_now;
}

-- `Conversation(…)` of the row and the messages that were found.
abbrev pub to_conversation : ConversationRow → List Message → Conversation
to_conversation model messages = record {
  id = model.id;
  tenant_id = model.tenant_id;
  messages = messages;
  created_at = some model.created_at;
  updated_at = some model.updated_at;
}

-- `model is None or model.tenant_id != tenant_id`
abbrev pub of_tenant : Text → Option ConversationRow → Option ConversationRow
of_tenant tenant_id none = none
of_tenant tenant_id (some model) = if model.tenant_id == tenant_id then some model else none

-- What `get` does with the row that passed.
unfoldable pub with_messages : Option ConversationRow → Action (Option Conversation)
unfolding sort_by_seq traverse
with_messages none w = (ok none, w)
with_messages (some model) w = (
  and_then (traverse message_to_entity (sort_by_seq (select (said_in model.id) w.messages)))
      (λ messages. ok (some (to_conversation model messages))),
  w,
)

unfoldable pub get : Text → Uuid → Action (Option Conversation)
unfolding with_messages
get tenant_id conversation_id = do
  model ← gets (λ w. select_first (by_id conversation_id) w.conversations)
  with_messages (of_tenant tenant_id model)

module _ (env : Env) where
  -- One flush of message rows: all are written, or none.
  unfoldable pub flush_messages : List MessageRow → Action (Unit {0})
  unfolding any_clash
  flush_messages rows w =
      if any_clash rows w.messages
      then (err (integrity_error env.duplicate_key), w)
      else (ok tt, append_messages rows w)

  unfoldable pub add : Conversation → Action (Unit {0})
  unfolding exists flush_messages new_rows
  add conversation = do
    clash ← gets (λ w. exists (by_id conversation.id) w.conversations)
    raise_if clash (integrity_error env.duplicate_key)
    modify (λ w. append_conversation (new_conversation_row w.server_now conversation) w)
    rows ← gets (λ w. new_rows w.server_now conversation.id [] 0 conversation.messages)
    flush_messages rows

  -- The messages that `update` writes: those whose ids the conversation has no row for.
  abbrev unsaved_rows : Conversation → World → List MessageRow
  unsaved_rows conversation w =
      new_rows w.server_now conversation.id
        (map (λ m. m.id) (select (said_in conversation.id) w.messages)) 0 conversation.messages

  unfoldable pub update : Conversation → Action (Unit {0})
  unfolding flush_messages new_rows
  update conversation w = elim (select_first (by_id conversation.id) w.conversations) [
    | none ↦ (ok tt, w)
    | some _ ↦ flush_messages (unsaved_rows conversation w) w
  ]
