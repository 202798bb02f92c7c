-- ===== src/Tests.antt =====
-- The theorems at concrete inputs, and runs of the definitions.
mod Chunking
mod Storing
mod Delivering
mod Serving
mod Messaging
mod Cleaning
mod Endpoint
mod Embedding
mod Uploading
mod Tables
mod Remembering
