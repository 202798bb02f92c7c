-- ===== src/JobStore.antt =====
-- worker/src/docrunr_worker/job_store.py: the SQLite store of the worker's jobs. `Event` reads an
-- event, `Table` has the rows and the upsert, `Flush` writes a batch, `Writer` is the thread that
-- forms the batches, and `Migrate` rebuilds a table of an older version.
pub mod Event
pub mod Table
pub mod Flush
pub mod Writer
pub mod Migrate
