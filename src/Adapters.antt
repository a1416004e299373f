-- ===== src/Adapters.antt =====
-- The adapters of the services: what they make of what the core hands them.
pub mod Cache
pub mod Chunker
pub mod Gemini
pub mod FastEmbed
pub mod PyMuPdf
pub mod Qdrant
pub mod RabbitMq
