-- ===== src/Lib.antt =====
-- Evidence selection and citation of the document assistant in backend/app: what reaches a prompt, what
-- an answer may cite, and the state that guards requests.
--
-- The path of a question: its scope is resolved to documents of the tenant's active manifest
-- (rag/scope.py), a search over the scope is fused and read from the database (rag/retriever.py), the
-- retrieved chunks become evidence (rag/candidates.py), a reranker orders the
-- evidence, near copies are removed (rag/dedup.py), weak evidence is dropped (rag/confidence.py), what
-- is left is packed into the token budget of the prompt (rag/context.py), and a calibrated gate decides
-- on the packed evidence whether to answer at all (rag/gate.py). The answer is streamed through a
-- sanitizer that lets allowed citation markers pass (chat/citations.py).
-- The path of a document: a job parses it, builds its sections (ingest/sections.py) and chunks
-- (ingest/chunker.py), stores and indexes them and moves the tenant to a new generation
-- (ingest/jobs.py); deletion and collection of old versions are in ingest/reconcile.py. A search and a
-- job meet in the tables of Ingest/Tables.
-- Requests are guarded by logins and refresh tokens (auth/service.py), limits (auth/rate_limit.py),
-- idempotency keys (core/idempotency.py), signed cursors (core/pagination.py) and the check of URLs
-- (web/security.py). Paths here are below backend/app.
--
-- Files, and what they model:
--   Base and the files below it: lists, text, counters, dictionaries, results, sorting, rounding.
--   Auth/Login: `login`, `_memberships` and `_select_membership` of auth/service.py on the same tables.
--   Auth/RateLimit: `check`, `register_failure` and `clear_failures` of auth/rate_limit.py; the
--     commands of Redis are parameters, its script is `count_bucket`.
--   Auth/Tokens: `refresh` and `logout` of auth/service.py on the tables of models/auth.py; the early
--     returns of `refresh` are `refresh_found`, `refresh_known` and `refresh_owned`, and `login` opens a
--     family of tokens by `open_family`. Columns that no modelled call reads or writes are left out.
--   Chat/Citations: `CitationStreamSanitizer` of chat/citations.py; `_drain` is `drain`, and the regular
--     expressions are scanners over code points.
--   Core/Idempotency: core/idempotency.py; the table is a dictionary from the columns of the primary key
--     of `IdempotencyRequest` (models/content.py) to the others, and `IN_PROGRESS` of `ClaimState` is
--     `running`. Steps is the relation of any calls, one after another.
--   Core/Pagination: `CursorCodec` of core/pagination.py; Base64 has what is proved of its padding.
--   Ingest/Chunker: `chunk_blocks` of ingest/chunker.py; the inner loop makes `token_windows`, whose
--     fuel is the number of tokens, and `add_chunk` of each.
--   Ingest/Jobs: the transactions of `IngestionPipeline` of ingest/jobs.py; Jobs holds `_start`,
--     as `start_after` between a read without locks and one with them and as `start` where both read one
--     store, `_persist_staged_content` and `_heartbeat`, Jobs/Finish the three that end a job.
--   Ingest/Process: `process` of ingest/jobs.py; Process holds the state and its calls, Pipeline the loop
--     over the batches and the body.
--   Ingest/Reconcile: ingest/reconcile.py; Garbage holds `garbage_collect_inactive_versions`, where the
--     index is a parameter and the stored files are the keys that exist.
--   Ingest/Sections: `build_sections` of ingest/sections.py; `walk` is its inner loop over the parts of a
--     path, whose round is `visit`.
--   Ingest/Tables: the tables of models/content.py and models/auth.py that ingestion uses, in one store.
--   Rag/Confidence: `CandidateConfidenceFilter` of rag/confidence.py; the loop of `filter` is `sift`.
--   Rag/Context: `ContextPacker` of rag/context.py; a round of the loop of `pack` is `pack_step`.
--   Rag/Dedup: `deduplicate` of rag/dedup.py; its two loops are `collapse` and `absorb`.
--   Rag/Gate: `ConfidenceGate` of rag/gate.py; the early returns of `evaluate` are `route_of`.
--   Rag/Pool: `merge_candidate_pool` of rag/combined.py; its loop is `weave`.
--   Rag/Postprocess: `process` of rag/postprocess.py, which composes Rag/Reranker, Rag/Dedup,
--     Rag/Confidence, Rag/Context and Rag/Gate.
--   Rag/Records, Rag/Candidates: the records of rag/candidates.py and rag/retriever.py, their checks
--     (`fields_fit`, `validate_source_fields`), `from_retrieval`, and the sort keys.
--   Rag/Reranker: `rerank`, `_score` and `_score_batch` of rag/reranker.py; what the service answers and
--     what the cache holds are parameters.
--   Rag/Retriever: rag/retriever.py; Retriever holds `_fuse_branches`, Hydration `_hydrate_chunks` and
--     `_rank_hydrated`, Selection `_cap_sections`, `_load_neighbors` and `retrieve`. The store is the one of
--     Ingest/Tables; the answer of the search service is an argument, the sum of doubles a parameter.
--   Rag/Scope: rag/scope.py; Hints holds what a hint matches, Documents the queries, Resolve
--     `MetadataResolver.resolve`.
--   Web/Security: `validate_url` and `_normalize_host` of web/security.py; the parsers and codecs that they
--     call are parameters.
-- The files named Laws, Correct, Total, Stream, Nested and the like hold proofs, those named Tests runs
-- at concrete inputs.
--
-- Choices of the model. Text is a list of code points. A UUID is its 128 bit number, whose order is the
-- order of its text. A score between 0 and 1 is a whole number of units of 2 to the power -1074, so that
-- every double in this range is one exactly; the rounded subtraction and division of the
-- processor are a parameter (`FloatOps`), with what IEEE 754 guarantees of them as the record
-- `IsRounded`. A set whose order is never seen is a list without repetition, a Counter an association
-- list. Python's `sorted` is a stable insertion sort. Loops over lists are structural recursion; where
-- a scanner needs fuel, the length of the text is given, since each round takes a character.
-- A time is a number of microseconds, or of seconds in Auth and Ingest. A transaction is one step on its
-- table: the row lock of the database makes calls on one row follow each other. `_start` reads before it
-- locks, so `start_after` takes the store of that read too.
-- Not modelled: the database, the vector store, the model services and the HTTP layer, the front end,
-- deployment, evaluation reports and tests. The serving tokenizer is a parameter that may fail. The task
-- that repeats the heartbeat of a job beside `process`, and cancellation, are left out.
pub mod Base
pub mod Rag
pub mod Chat
pub mod Core
pub mod Auth
pub mod Ingest
pub mod Web
