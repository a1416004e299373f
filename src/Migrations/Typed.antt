-- ===== src/Migrations/Typed.antt =====
-- The statements of alembic/versions/c3d9e1f42a76_typed_metadata_and_source_type.py.
pub mod Rows
use cortex_rag.Base.{List, [], ◌∷◌, text}
use cortex_rag.Migrations.Schema.{Op, execute}

unfoldable pub upgrade : List Op
upgrade =
    execute (text "UPDATE knowledge_documents")
    ∷ execute (text "UPDATE knowledge_documents")
    ∷ execute (text "UPDATE knowledge_documents")
    ∷ []

unfoldable pub downgrade : List Op
downgrade =
    execute (text "UPDATE knowledge_documents") ∷ execute (text "UPDATE knowledge_documents") ∷ []
