-- ===== src/Memory.antt =====
-- The memory module (server/src/knowledge_system/modules/memory).
pub mod ContextPack
pub mod Types
pub mod Governance
pub mod States
pub mod Duplicate
mod Examples
mod RecordExamples
