-- ===== src/Migrations/Talks.antt =====
-- The statements of alembic/versions/9555bfdd5c43_conversations_and_messages.py.
use cortex_rag.Base.{List, [], ◌∷◌, text}
use cortex_rag.Migrations.Schema.{
  uuid, integer, long_text, timestamp, varchar, Op, create_table, drop_table, create_index,
  drop_index, required, defaulted, plain_index, unique_index,
}

unfoldable pub upgrade : List Op
upgrade =
    create_table (record {
      name = text "conversations";
      columns =
          required (text "id") uuid
          ∷ required (text "tenant_id") (varchar 255)
          ∷ defaulted (text "created_at") timestamp (text "now()")
          ∷ defaulted (text "updated_at") timestamp (text "now()")
          ∷ [];
      foreign_keys = [];
    })
    ∷ create_index (
        plain_index (text "ix_conversations_tenant_id") (text "conversations")
          (text "tenant_id" ∷ []))
    ∷ create_table (record {
      name = text "conversation_messages";
      columns =
          required (text "id") uuid
          ∷ required (text "conversation_id") uuid
          ∷ required (text "seq") integer
          ∷ required (text "role") (varchar 32)
          ∷ required (text "content") long_text
          ∷ defaulted (text "created_at") timestamp (text "now()")
          ∷ [];
      foreign_keys =
          record {
            column = text "conversation_id";
            target = text "conversations";
            on_delete = text "CASCADE";
          }
          ∷ [];
    })
    ∷ create_index (
        plain_index (text "ix_conversation_messages_conversation_id") (text "conversation_messages")
          (text "conversation_id" ∷ []))
    ∷ create_index (
        unique_index (text "ix_messages_conversation_seq") (text "conversation_messages")
          (text "conversation_id" ∷ text "seq" ∷ []))
    ∷ []

unfoldable pub downgrade : List Op
downgrade =
    drop_index (text "ix_messages_conversation_seq")
    ∷ drop_index (text "ix_conversation_messages_conversation_id")
    ∷ drop_table (text "conversation_messages")
    ∷ drop_index (text "ix_conversations_tenant_id")
    ∷ drop_table (text "conversations")
    ∷ []
