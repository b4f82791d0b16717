-- ===== src/Tasking/RuntimeLoop.antt =====
-- modules/tasking/application/runtime_loop.py: the run of the proposed actions, and the dispatch of
-- one decision of the controller.
pub mod Attempts
pub mod Run
pub mod Advance
pub mod Adopted
pub mod Observed
pub mod Whole
pub mod Step
mod Examples
