-- ===== src/Tasking/RuntimeDecision.antt =====
-- modules/tasking/domain/runtime_decision.py: the controller that decides, from one snapshot of the
-- facts, what a task does next.
pub mod Signals
pub mod Select
pub mod Evaluate
pub mod Priority
pub mod Unique
pub mod Justified
pub mod Total
pub mod Outcome
