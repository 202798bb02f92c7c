-- ===== src/Messages.antt =====
-- runtime/src/docrunr_runtime/messages.py: the contract of the extraction queue.
pub mod Priority
pub mod Payload
pub mod Names
