-- ===== src/Temporal/Payload.antt =====
-- modules/temporal/payload: what is written into a workflow's history is encrypted, or stored
-- elsewhere and referred to.
pub mod Libraries
pub mod Stores
pub mod Codec
pub mod RoundTrip
pub mod Batch
mod Examples
