-- ===== src/Documents.antt =====
-- The use cases of app/application/documents/ and their read models.
pub mod View
pub mod Upload
pub mod Versions
pub mod Manage
pub mod Process
