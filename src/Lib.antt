-- ===== src/Lib.antt =====
-- researchmind-mcp: accounts, uploads, the ingestion of documents, search, and their tables.
--
-- The program takes an uploaded PDF through three stages. A worker delivers a job to
-- `IngestionService.ingest` (backend/services/ingestion_service.py), which checks the job against
-- the document's row, claims the document by a conditional UPDATE, and parses, chunks and embeds
-- it; each stage commits its output together with the document's next status, or nothing. A
-- reaper fails claims that a dead worker left, and a recovery sweep queues jobs again.
--
-- In front of it stand `DocumentService` (backend/services/document_service.py), which checks,
-- stores, records and queues an upload; `SearchService` (backend/services/search_service.py), which
-- confirms the vector store's candidates against PostgreSQL; and authentication (backend/security,
-- backend/services/auth_service.py), which turns a token into the principal that both act for.
--
-- The files:
-- - Prelude.antt: names and lemmas that all share.
-- - Models.antt: shared/models and the failures of shared/interfaces.
-- - Exec.antt: Python methods that await, raise and change the world; Hoare triples for them.
-- - Runtime.antt: what the code calls and does not implement (uuid, hashlib, the clock, database
--   faults, other transactions).
-- - Database.antt: the tables of backend/db/models with their constraints, and a session over
--   them (execute, commit, rollback).
-- - Repositories.antt: backend/db/repositories, one module per class.
-- - StorageKey.antt: `document_storage_key` of shared/interfaces/storage.py.
-- - Chunker.antt: document_processing/{chunker,sections}.py: token windows, sections, chunks.
-- - Lifecycle.antt: the abstract lifecycle of a document under a delivery, and what follows
--   from it alone.
-- - Ingestion.antt: the service, by stage (Transitions, ParseStage, ChunkStage, EmbedStage,
--   Delivery, Maintenance), the refinement of the lifecycle (Refines) and what it gives
--   (Guarantees, Recovery).
-- - PdfParser.antt: document_processing/pdf_parser.py, from PyMuPDF's blocks to pages of text.
-- - Security.antt: passwords, tokens and roles, over bcrypt and PyJWT (backend/security).
-- - Accounts.antt: registration, login, and who a request is from and what it may do.
-- - Vectors.antt: `QdrantVectorStore` (vector_db/qdrant/repository.py) and its payloads.
-- - Search.antt: the search service; Valid, Results and Sound follow its steps.
-- - Storage.antt: `LocalStorage` (backend/storage/local.py) over a list of objects.
-- - Uploads.antt: the document service; Validation is document_processing/validation.py.
-- - Worker.antt: one attempt at a job, and the check at the start (backend/ingestion/worker.py).
-- - Samples.antt, Tests.antt, Witnesses.antt: a small world, runs in it, and the theorems there.
--
-- A method is a function from the world (committed rows, session, vector store, objects, waits)
-- to its result or exception and the world after it. Every wait can bring a cancellation, a lost
-- connection, and other transactions, as the runtime says; a theorem over every runtime covers
-- every course of events. While a transaction has written, others wait for its row lock. A COMMIT
-- whose reply does not come, for a lost connection or a cancellation, may have been carried out or
-- not (`landed`); registration and uploads are shown for both, deliveries where it was not. All
-- functions are total. The loop of the token windows runs on fuel, one unit for each token, which is
-- enough as each window starts at least one token after the one before it.
--
-- Not modelled: logging and its counters, the bodies of the collaborators behind protocols
-- (PyMuPDF, embedding, the queue, the vendors' clients), whose replies are parameters; the
-- regular expressions, Unicode normalisation and floating point, whose answers are parameters;
-- temporary files and directories of the storage; the HTTP API, settings and the start of the
-- worker; the columns that no modelled statement reads; the identity map of a session, so that
-- each read is a SELECT, as in the fresh session of a request. A task is cancelled only at a wait.
pub mod Accounts
pub mod Chunker
pub mod Database
pub mod Exec
pub mod Ingestion
pub mod Lifecycle
pub mod Models
pub mod PdfParser
pub mod Prelude
pub mod Repositories
pub mod Runtime
pub mod Samples
pub mod Search
pub mod Security
pub mod Storage
pub mod StorageKey
pub mod Tests
pub mod Uploads
pub mod Vectors
pub mod Witnesses
pub mod Worker
