-- ===== src/Lib.antt =====
-- docrunr turns documents into markdown chunks and runs that work behind a message queue. This
-- library models the parts that carry its own logic and proves what they promise.
--
-- The parts and how they interact. The core splits a cleaned markdown text into chunks
-- (core/src/docrunr/chunk.py). The extraction worker takes a job from RabbitMQ
-- (worker/src/docrunr_worker/consumer.py), reads its request
-- (worker/src/docrunr_worker/handler.py, runtime/src/docrunr_runtime/messages.py), runs the core,
-- publishes the result, settles the delivery, and hands each event of the job to a store
-- (worker/src/docrunr_worker/job_store.py, job_status.py), whose one writer thread keeps a table
-- of jobs and a row of counters in SQLite. The API service keeps a job table and an outbox of its
-- own (api/src/docrunr_api/repository.py), publishes what stands in the outbox, and applies the
-- messages that the workers send back. The extraction worker serves HTTP as well
-- (worker/src/docrunr_worker/health.py): behind a session it shows jobs and artifacts and takes
-- uploads (worker/src/docrunr_worker/uploads.py), which become jobs. An extraction with a profile
-- leads to a job for the worker for embeddings (worker-llm/src/docrunr_worker_llm).
--
-- Which file models which part.
--   Base        texts as lists of code points, `str` methods, paths, decimal numbers, list lemmas
--   Normalize   `normalize_for_comparison` of core/src/docrunr/_text.py, `_normalize_chunk_text`
--   Chunk       core/src/docrunr/chunk.py: Section (`_build_section_path_states` and its
--               resolver), Boundary (`_split_on_section_boundaries`), Separator and Recursive
--               (`_split_on_separator`, `_split_recursive`), Windows
--               (`_best_token_window_end`, `_split_force_token_windows`), Pack (`_pack_spans`),
--               Normalize (`_normalize_span`, `_enforce_max_tokens`), Config
--               (`ChunkingConfig`, `_build_config`), Build (`_append_chunk`, `chunk_markdown`,
--               `Chunk` of core/src/docrunr/models.py)
--   Clean       core/src/docrunr/clean.py: Fence (`_split_fenced_blocks`)
--   Messages    runtime/src/docrunr_runtime/messages.py: Priority, Payload (`job_payload_dict`) and
--               Names (`safe_client_filename`, `input_relative_path` and their like)
--   Handler     handler.py: Request (`parse_job_request_from_body` and what it calls),
--               Artifacts (`_derive_output_prefix`, `_build_artifacts`) and Job
--               (`handle_extract_job`, whose calls end as its argument says)
--   JobStatus   worker/src/docrunr_worker/job_status.py
--   JobStore    job_store.py: Event (`_event_to_job`), Table (the upsert), Flush
--               (`_flush_batch`, `_recompute_worker_stats_from_job_events`), Writer
--               (`_writer_loop`, a machine driven by what the queue answers) and Migrate
--               (`_migrate_job_events_lifecycle`)
--   Consumer    consumer.py: Broker (the channel, whose calls return, raise or close it),
--               Delivery (`_on_extraction_message` at a concurrency of 1), Hoare and
--               Conditions (rules for proofs on such code), Pending (the table of the deliveries
--               in the process pool, with the accesses of all threads and `stop`)
--   Api         the tables of api/src/docrunr_api/repository.py: Schema (the rows and the
--               payloads), Binding (what sqlite3 takes as a parameter), Repository (the methods
--               of `JobRepository` that change rows), Outbox (`pending_outbox`, `mark_published`,
--               and `_flush_outbox` of api/src/docrunr_api/broker.py)
--   Http        worker/src/docrunr_worker/health.py: Session (`_SESSIONS`), Route (which requests
--               want a session, and the paths that are served), Request and Pages (what comes in
--               and goes out), Server (`do_GET`, `do_POST`), History (requests in a row) and
--               Memory (`WorkerStats.record_job` where no store takes the event)
--   Uploads     worker/src/docrunr_worker/uploads.py (`process_upload_request`) and
--               worker/src/docrunr_worker/publisher.py
--   Llm         worker-llm/src/docrunr_worker_llm: Request and Handler (handler.py), Client
--               (litellm_client.py), Embeddings (embeddings.py), Consumer (consumer.py) and Store
--               (job_store.py)
--   Tests       runs of the models at concrete inputs
--
-- State is passed explicitly: `Output` holds the variables of `chunk_markdown`, `Packing` those of
-- `_pack_spans`, `Scan` those of `_build_section_path_states`; `Store` is the table with the
-- counters, `Writer` the batch of the writer loop, `Broker` the channel with the trace of what
-- was done on it, and `Database` the two tables of the API service.
--
-- Loops. Loops over lists are structural. The search for a separator and the token windows run on
-- fuel, the length of the text, and the binary search for a window on one more than that: each
-- step moves on, or narrows the search, by at least one character. The loop of
-- `_drain_pending_futures` runs on fuel 2, since its first round empties the table. Printing a
-- number runs on fuel n + 1, since each step divides by ten. The loop over batches of texts runs on
-- one more than the number of texts, since each round takes at least one. That the fuel is enough
-- is part of the theorems: what is split has to cover the whole text, the table has to be empty,
-- and the batches have to end with an artifact.
--
-- Parameters stand for code outside the repository: the tokenizer, SHA-256, the JSON decoder, the
-- floats of Python, `str.lower`, the clock, and the answers of the broker. No theorem asks more of
-- the tokenizer than that each single character fits into a window, of `str.lower` than that it
-- leaves two suffixes or the empty text alone, of `str` than that it gives a text back, and of the
-- embedding service than that it answers each text by itself, each where it says so. The tokenizer
-- and SHA-256 are total functions here: a document on which they raise, since it spells a special
-- token or cannot be encoded in UTF-8, has no result. A call of the channel that raises has done
-- nothing or has gone out and closed the channel.
--
-- Not modelled: the conversion of documents (parsers over third-party libraries), the other passes
-- that clean markdown, detection of file types, the endpoints of the other services, the parsing
-- of forms, what a delivery of a process pool does on the channel, the process pool of the worker
-- for embeddings, the command line and the user
-- interface, and in the parts above the read side of the stores, the columns that their migrations
-- add, and the set-up of connections and threads.
pub mod Base
pub mod Normalize
pub mod Chunk
pub mod Clean
pub mod Messages
pub mod JobStatus
pub mod JobStore
pub mod Handler
pub mod Consumer
pub mod Api
pub mod Http
pub mod Uploads
pub mod Llm
mod Tests
