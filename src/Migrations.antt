-- ===== src/Migrations.antt =====
-- The migrations (alembic/versions), and the tables that the models declare (sqlalchemy/models.py).
pub mod Schema
pub mod Foundation
pub mod Versioning
pub mod Typed
pub mod Pipeline
pub mod Talks
pub mod Head
