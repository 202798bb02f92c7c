-- ===== src/Llm.antt =====
-- The worker for embeddings, worker-llm/src/docrunr_worker_llm.
pub mod Request
pub mod Client
pub mod Embeddings
pub mod Handler
pub mod Store
pub mod Consumer
