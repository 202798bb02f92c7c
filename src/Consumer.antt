-- ===== src/Consumer.antt =====
-- worker/src/docrunr_worker/consumer.py: what the worker does with one delivery of the broker, and
-- the table of the deliveries whose extraction runs in the process pool.
pub mod Broker
pub mod Hoare
pub mod Conditions
pub mod Delivery
pub mod Pending
