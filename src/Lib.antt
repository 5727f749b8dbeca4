-- ===== src/Lib.antt =====
-- aithena is a library search service for books: document-lister queues the paths of files,
-- document-indexer reads each one, sends its text to Solr and its chunks, with their embeddings, to
-- Solr again, and solr-search answers queries over both and keeps users' collections. This library
-- models the parts that carry its own logic.
--
-- document-indexer (src/document-indexer/document_indexer):
--   Chunker        chunker.py: sentence-aware word ranges, chunks with page numbers
--   Control        control.py: the pause/resume state machine, its copy in Redis, its HTTP routes
--   Control/Consumer  the loop of `consume` in __main__.py, which obeys the control object
--   Indexer        get_embeddings of embeddings.py, build_chunk_doc and index_chunks of __main__.py
--   Indexer/Documents  load_state, save_state, mark_failure, apply_metadata_override,
--                  build_literal_params, index_document and callback of __main__.py
--   Indexer/Startup  wait_for_solr_collection of __main__.py
-- document-lister (src/document-lister/document_lister/__main__.py):
--   Lister         process_path and handle_document
-- solr-search (src/solr-search):
--   AdminDocs      the /v1/admin/documents endpoints of main.py and its admin_reindex
--   Breaker        circuit_breaker.py: CircuitBreaker
--   Services       query_solr and _fetch_embedding of main.py, through the breakers
--   Collections    collections_service.py over the tables of migrations/001_collections_init.py
--   Search         search_service.py: sort clauses, filters, escaping, parameters, pagination
--   Search/Fusion  reciprocal_rank_fusion of search_service.py
--   Search/Results, Search/ChunkPages  collect_highlights, thumbnail_url, normalize_book and
--                  enrich_results_with_chunk_pages of search_service.py
--   Search/Rerank  _search_hybrid_rerank of main.py without the vectors
--   PerfMetrics    perf_metrics.py: PerfMetricsStore
--   SearchLimit    RedisRateLimiter and get_client_ip of main.py
--   Migrations     migrations/__init__.py
--   Password       password_policy.py
--   Auth           auth.py: time to live, tokens; Auth/Users, Auth/Accounts  its users table
--   Auth/Endpoints, Auth/Routes  main.py: authentication middleware and the /v1/auth endpoints
--   Auth/Admin     admin_auth.py and require_role of main.py behind the middleware
--   RateLimit      RateLimiter of main.py
-- Pipeline puts Lister, the worker of Indexer/Documents and AdminDocs together over one Redis table
-- and one queue. Its steps are scans (of all files or some), deliveries and requests, and the single
-- effects of the lister's handling of a document, which other steps may interrupt, since the source
-- has no lock there.
-- Base holds what they share: tests on numbers, lists, texts as code points, Python dicts, stable
-- sorting. A module X.antt has the model, its children the proofs, and X/Tests.antt runs of the model
-- and the theorems at concrete inputs.
--
-- The parts meet as in the source: `callback` runs begin_processing and end_processing of Control
-- around index_document, index_chunks takes the chunks with pages that Chunker gives, and the
-- parameters of a search page meet the pagination of its answer.
--
-- A request under /v1/auth runs through the middleware to its endpoint, login through RateLimit and
-- new passwords through Password.
--
-- Conventions. A method becomes a function from the state to its result and the new state. A lock
-- makes a method one step, and runs are lists of steps by any threads or users. Exceptions are
-- results. What a program outside answers (clock, Redis, Solr, Tika, the embeddings server, the PDF
-- reader, hashes, casefold) is an argument. Times are natural numbers where they are only compared and
-- subtracted; scores are a type with a strict weak order. SQL statements are read as SQL defines them,
-- each method as one transaction. Ids and names that are only compared are strings; text that is
-- taken apart is a list of code points.
--
-- Fuel. The loops of Chunker take one unit of fuel a round and are given the number of words, and
-- index_batches the number of chunks: each round passes over at least one, and the theorems on the
-- whole functions state that everything is covered, so the fuel is enough. `digits` is given the
-- number itself, which has at most that many digits beyond the first.
--
-- Not modelled: the rest of the search, upload, metadata, statistics and status endpoints of main.py,
-- backup and the service metrics of solr-search, which are mostly calls of libraries; metadata and
-- thumbnail extraction, which read files; the connections and the endless loop of document-lister;
-- embeddings-server, a wrapper of a model; the TypeScript user interface, installer, deployment and
-- configuration. Log calls are left out, and floats are not rounded.
pub mod Base
pub mod Breaker
pub mod Chunker
pub mod Control
pub mod Collections
pub mod Search
pub mod SearchLimit
pub mod Services
pub mod Migrations
pub mod Password
pub mod RateLimit
pub mod PerfMetrics
pub mod Indexer
pub mod Lister
pub mod AdminDocs
pub mod Auth
pub mod Pipeline
