-- ===== src/Conversation.antt =====
-- Conversations and messages (app/domain/conversations/entities.py, app/domain/llm/entities.py),
-- their rows (sqlalchemy/models.py) and the mapping of conversation_repository.py.
use cortex_rag.Base.{ℕ, ◌≡◌, refl, Option, some, List, [], ◌∷◌, Text, text, text_eq}
use cortex_rag.Exec.{Result, ok, and_then}
use cortex_rag.Status.{from_value}
use cortex_rag.Job.{Uuid, Time}

pub data Role : Type 0 where
  system user assistant : Role

abbrev pub role_value : Role → Text
role_value system = text "system"
role_value user = text "user"
role_value assistant = text "assistant"

abbrev role_members : List Role
role_members = system ∷ user ∷ assistant ∷ []

-- `Role(s)`
unfoldable pub role_from : Text → Result Role
role_from = from_value (text "Role") role_value role_members

-- What a member is stored as reads back as that member.
pub role_from-value : (m : Role) → role_from (role_value m) ≡ ok m
unfolding role_from text_eq
role_from-value system = refl
role_from-value user = refl
role_from-value assistant = refl

pub record LlmMessage : Type 0 where
  pub role : Role
  pub content : Text

pub record LlmCompletion : Type 0 where
  pub content : Text
  pub model : Text

pub record Message : Type 0 where
  pub id : Uuid
  pub role : Role
  pub content : Text
  pub created_at : Option Time

-- `ConversationId` wraps a UUID; the model has the UUID.
pub record Conversation : Type 0 where
  pub id : Uuid
  pub tenant_id : Text
  pub messages : List Message
  pub created_at : Option Time
  pub updated_at : Option Time

-- `ConversationModel`
pub record ConversationRow : Type 0 where
  pub id : Uuid
  pub tenant_id : Text
  pub created_at : Time
  pub updated_at : Time

-- `ConversationMessageModel`
pub record MessageRow : Type 0 where
  pub id : Uuid
  pub conversation_id : Uuid
  pub seq : ℕ
  pub role : Text
  pub content : Text
  pub created_at : Time

-- `_message_to_model`
unfoldable pub message_to_model : Time → Uuid → ℕ → Message → MessageRow
message_to_model server_now conversation_id seq message = record {
  id = message.id;
  conversation_id = conversation_id;
  seq = seq;
  role = role_value message.role;
  content = message.content;
  created_at = server_now;
}

-- `_message_to_entity`
unfoldable pub message_to_entity : MessageRow → Result Message
message_to_entity model = and_then (role_from model.role) (λ role. ok (record {
  id = model.id;
  role = role;
  content = model.content;
  created_at = some model.created_at;
}))

-- A message reads back from its row as it was stored, with the server's creation time.
pub message_to_entity-message_to_model :
    (now : Time) (c : Uuid) (seq : ℕ) (m : Message)
    → message_to_entity (message_to_model now c seq m) ≡ ok (record m { created_at = some now })
unfolding message_to_entity message_to_model
message_to_entity-message_to_model now c seq m = rw (role_from-value m.role)
