-- ===== src/Lib.antt =====
-- Cortex-RAG, the back end of a knowledge base: documents are uploaded in versions and stored, a job
-- for each is put in a queue, a worker parses, splits and embeds the text and puts the vectors into a
-- vector store, and questions are answered from what a search in that store gives.
--
-- What is modelled, and where:
--   Base, Exec       texts, lists, and methods that change state and may raise
--                    (app/domain/shared/exceptions.py)
--   Status, Job      app/shared/constants.py, app/domain/documents/jobs.py
--   SourceType, Metadata, Document, Events, Conversation, Vector
--                    app/domain: the entities and values, with the rows that hold them
--   World            the state (five tables and what was told to each service) and `Env`, the services
--   Repo             app/infrastructure/persistence/sqlalchemy/repositories, over the statements of
--                    Repo.Sql; Repo.Ports has the port of the jobs of
--                    app/domain/documents/repositories.py
--   Settings, StoragePolicy, Validation
--                    app/config/settings.py, app/shared/parsing.py,
--                    app/domain/documents/storage_policy.py, app/application/documents/validation.py
--   Processing       app/application/processing
--   Documents        app/application/documents/use_cases
--   Session          app/infrastructure/persistence/sqlalchemy/session.py
--   Worker           app/workers and scripts/run_worker.py
--   Chat             app/application/search, app/application/chat
--   Adapters         app/infrastructure: llm/gemini_provider.py, chunking/recursive_chunker.py,
--                    embeddings/fastembed_provider.py, parsers/pymupdf_parser.py,
--                    vector_store/qdrant_repository.py and queue/rabbitmq_job_queue.py
--   Api              app/api: errors.py, dependencies.py, v1/routers and v1/schemas; a request is
--                    served by `serve`, in the session of its own
--   Migrations       alembic/versions, on the schema and on the rows, and the schema that
--                    app/infrastructure/persistence/sqlalchemy/models.py declares
--   Tests            runs at concrete inputs
--
-- A use case is a function from the state to its result and the next state; what it wrote before it
-- raised stays written until the session rolls the tables back. A text is the list of its code points;
-- a UUID, an instant and a float are natural numbers, since the code only passes them on and compares
-- them. UUIDs and readings of the clock come from `Env`, by how many were taken before.
--
-- The services outside the repository are the fields of `Env`, which every theorem holds for: the file
-- storage (its modules are imported but are not in the repository), the vector store, the broker, the
-- embedding model, the LLM, the parser, the splitter, SHA-256, `str.lower` and the UUIDs. Fuel is used
-- for the decimal digits, where each round divides by 10, so `n` rounds are enough, and for the
-- consumer's loop, where the messages that wait and the retries that are left are enough.
--
-- The column of a document's metadata is Metadata.Column, the JSON object that `model_dump` writes and
-- `model_validate` reads; the keys in it are always those of the class, and under `custom_properties`
-- a value is a string or any other JSON value. The id of a job in a message stands as the UUID that its
-- text names.
--
-- The vector store of `Env` answers by every upsert and search before, also those that raised, since
-- any of them may have created the collection, and the queue by the messages that it has accepted. The
-- state that the adapters keep of their own, the collections and queues that a process remembers, is
-- in Adapters.Qdrant and Adapters.RabbitMq, over a client that is a parameter; what is shown of that
-- client rests on the promises that are named there. A process has one client of Qdrant: the remembered
-- collections, which the code keys by name alone for all hosts, are those of one host.
--
-- Not modelled: the ids and times of events, the log, foreign keys and the lengths of columns where
-- rows are written, the order of rows whose sort keys are equal, the engine's pool, concurrent
-- transactions but for the message that arrives before its commit, the web framework with its paths
-- and decoding of bodies, and tasks that wait for one another.
pub mod Base
pub mod Exec
pub mod Status
pub mod Job
pub mod SourceType
pub mod Metadata
pub mod Document
pub mod Events
pub mod Conversation
pub mod Vector
pub mod World
pub mod Session
pub mod Repo
pub mod Settings
pub mod StoragePolicy
pub mod Validation
pub mod Processing
pub mod Documents
pub mod Worker
pub mod Chat
pub mod Api
pub mod Adapters
pub mod Migrations
pub mod Tests
