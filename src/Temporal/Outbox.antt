-- ===== src/Temporal/Outbox.antt =====
-- The outbox: messages that are committed with a task's facts and delivered to the workflow engine.
pub mod Table
pub mod Repository
pub mod Publisher
pub mod Rows
pub mod Keys
pub mod Steps
pub mod Life
pub mod Handling
pub mod Delivery
mod Examples
