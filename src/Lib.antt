-- ===== src/Lib.antt =====
-- A model of openchronicle-mcp, a memory store for language-model agents, and its theorems.
--
-- Parts. SqliteStore (src/openchronicle/core/infrastructure/persistence/sqlite_store.py) keeps
-- projects, memories and embeddings in SQLite and ranks searches. The use cases
-- (src/openchronicle/core/application/use_cases) put guards around it. EmbeddingService
-- (.../application/services/embedding_service.py) fills in the vectors through a provider.
-- MaintenanceLoop (.../application/services/maintenance_loop.py) runs its jobs. Git onboarding
-- (.../application/services/git_onboard.py) turns commits into clusters for memories and keeps a
-- watermark in the store. The migrator (.../infrastructure/persistence/migrator.py) brings the
-- tables up to date.
--
-- Files.
--   Base, Table: shared lists, texts, counting; a table with a text key, and joins of two.
--   Domain: domain/models and domain/time_utils.py. JSON values are in Domain/Values, times as
--     texts in Domain/Time.
--   Store/Conn: the connection, `transaction` and `_begin_immediate_with_retry`.
--   Store/Projects, Store/Memory, Store/Embedding: the methods of SqliteStore, one function each,
--     under the method's name. Store/Calls: any sequence of the writing ones.
--   Store/Transaction, Keeps, Valid, Writes, Deletes, Laws, Removal: their theorems.
--   Store/Contents: the map from ids to memories that the memory methods promise. Store/Refines
--     compares them.
--   Search/Words, Search/Ranked: `_ranked_search` and what it calls. Search/Keyword: the keyword
--     path of use_cases/search_memory.py. Search/Fetch: the page that a search returns.
--   Import: use_cases/import_memory.py. Validate and Apply define it, the others prove.
--   Export/Build: use_cases/export_memory.py. Checked, Rows and RoundTrip prove.
--   Git/Commits: `filter_commits`. Git/Cluster: `cluster_commits`. Git/Onboard:
--     `onboard_git_prepare` and `save_watermark`. Groups, Cap, Partition, Deleting, Sources, Resume,
--     Prepare and Guarded prove.
--   Migrations/Script: `_discover_migrations` and `_split_sql`. Migrations/Apply: `apply_pending`
--     with its savepoints. Migrations/Whole, Due and Resume prove.
--   Service/Port, Generate, Backfill: `generate_for_memory`, `generate_missing` and `_backfill`.
--   Service/Status: `embedding_status`. Service/Work proves.
--   Service/Semantic, Hybrid: `search_semantic` and `search_hybrid`. Shown, Halves and Fallback
--     prove.
--   UseCases/Stats: use_cases/stats_memory.py. UseCases/Histograms proves.
--   UseCases/Search: use_cases/search_memory.py. UseCases/Answers proves.
--   Maintenance/Jobs, Loop, Config: JobState, the loop's steps between two awaits, `load_jobs`.
--     Maintenance/Exclusion, Counters and Loaded prove.
--   UseCases/Memories, Projects: the other use cases, under their files' names. UseCases/Vectors and
--     UseCases/Batch (the preview) prove.
--   RateLimit/Window: src/openchronicle/interfaces/api/middleware/rate_limit.py. RateLimit/Bound
--     proves.
--   Config/Env: src/openchronicle/core/application/config/env_helpers.py. Config/Ports proves.
--   Tests: the theorems on small stores.
--
-- A method is an action: it takes the connection and returns a result or an exception with the
-- connection afterwards. A table is the list of its rows, with the primary and foreign keys as
-- tests of the statements; a transaction keeps the tables to go back to on a stack. The store's
-- lock makes every method atomic, so threads are sequences of calls; the maintenance loop is a
-- sequence of steps, and the backfill takes what other threads do during each provider call as an
-- argument.
--
-- Texts are sequences of Unicode scalar values: a lone surrogate, which sqlite3 refuses with
-- UnicodeEncodeError, is outside the model. COMMIT succeeds in the methods; Store/Transaction also
-- takes one that raises and leaves the transaction open.
--
-- Parameters: FTS5's matching, refusals and rank, Python's case folding, hashlib's digest,
-- datetime.fromisoformat and isoformat, `int` of a float or a text, the embedding provider, the
-- clock, floats and numpy's ranking, the order of a Python set, the walk that runs git log, `\d`, and
-- the execution of SQL statements in a migration, which open and end no transaction.
--
-- Fuel: a backfill has as many turns as candidates, and each turn takes at least one of them, so
-- that is enough. The loop that caps the clusters has as many turns as groups, and each turn takes
-- one away. BEGIN IMMEDIATE is tried four times, as in the code.
--
-- Not modelled: logs but for the warnings of `resolve_port`, metrics, messages of exceptions,
-- packing of vectors, VACUUM and backups, the parsing of git log, the checks of URLs and branches,
-- the labels and summaries of clusters, the background backfill and the reconciliation of model
-- revisions, embed_memory and the rest of the REST, MCP and CLI surfaces, and the scripts.
pub mod Base
pub mod Table
pub mod Domain
pub mod Store
pub mod Search
pub mod Export
pub mod Git
pub mod Import
pub mod Service
pub mod Maintenance
pub mod Migrations
pub mod UseCases
pub mod RateLimit
pub mod Config
pub mod Tests
