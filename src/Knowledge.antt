-- ===== src/Knowledge.antt =====
-- The knowledge module (server/src/knowledge_system/modules/knowledge).
pub mod Chunking
pub mod IndexBuild
pub mod Candidates
mod Examples
