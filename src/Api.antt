-- ===== src/Api.antt =====
-- The HTTP side.
pub mod Errors
pub mod Dependencies
pub mod Requests
pub mod Routers
