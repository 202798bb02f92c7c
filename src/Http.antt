-- ===== src/Http.antt =====
-- The HTTP endpoint of the extraction worker, worker/src/docrunr_worker/health.py.
pub mod Session
pub mod Route
pub mod Request
pub mod Pages
pub mod Server
pub mod History
pub mod Memory
