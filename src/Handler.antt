-- ===== src/Handler.antt =====
-- worker/src/docrunr_worker/handler.py: the messages of the extraction queue and the paths of what
-- is written.
pub mod Request
pub mod Artifacts
pub mod Job
