-- ===== src/Tests.antt =====
-- Runs at concrete inputs, and the theorems applied to them.
mod Data
mod Jobs
mod Documents
mod Values
mod Ingestion
mod Chat
mod Http
mod Migrations
mod Routers
mod Consumer
mod Adapters
