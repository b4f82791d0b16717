-- ===== src/Temporal.antt =====
-- The connection to the workflow engine (modules/temporal and infrastructure/persistence/outbox.py).
pub mod Payload
pub mod Outbox
