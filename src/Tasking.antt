-- ===== src/Tasking.antt =====
-- Task control (server/src/knowledge_system/modules/tasking).
pub mod RuntimeDecision
pub mod RuntimeProgress
pub mod PlanRelations
pub mod RuntimeLoop
pub mod FinalGate
mod Examples
