-- ===== src/Memory/ContextPack.antt =====
-- modules/memory/domain/context_pack.py: what goes into the context of a model call, within its
-- token budget.
pub mod Budget
pub mod Select
