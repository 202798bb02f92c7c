-- ===== src/Api.antt =====
-- The API service of api/src/docrunr_api: its job table and its outbox.
pub mod Schema
pub mod Binding
pub mod Repository
pub mod Outbox
