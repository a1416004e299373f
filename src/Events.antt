-- ===== src/Events.antt =====
-- Domain events (app/domain/documents/events.py, app/domain/shared/events.py). The id and the time
-- of an event are drawn when it is made; nothing in the program reads them.
use cortex_rag.Base.{ℕ, Text}
use cortex_rag.Job.{Uuid}
use cortex_rag.Metadata.{KnowledgeMetadata}

pub data DomainEvent : Type 0 where
  -- document, tenant, version, version number, checksum
  document_uploaded : Uuid → Text → Uuid → ℕ → Text → DomainEvent
  document_version_added : Uuid → Text → Uuid → ℕ → Text → DomainEvent
  -- document, tenant
  document_deleted : Uuid → Text → DomainEvent
  document_metadata_updated : Uuid → Text → KnowledgeMetadata → DomainEvent
  -- job, document, tenant, and the job's type, the worker's name, or the message and retry count
  processing_job_created : Uuid → Uuid → Text → Text → DomainEvent
  processing_job_started : Uuid → Uuid → Text → Text → DomainEvent
  processing_job_completed : Uuid → Uuid → Text → DomainEvent
  processing_job_failed : Uuid → Uuid → Text → Text → ℕ → DomainEvent
