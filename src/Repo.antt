-- ===== src/Repo.antt =====
-- The SQLAlchemy repositories (app/infrastructure/persistence/sqlalchemy/repositories/).
pub mod Sql
pub mod Documents
pub mod Jobs
pub mod Conversations
pub mod Ports
