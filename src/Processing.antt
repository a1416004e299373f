-- ===== src/Processing.antt =====
-- The use cases of app/application/processing/ (create, get and list a job) and their read model.
pub mod Create
pub mod Query
pub mod Slots
