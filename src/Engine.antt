-- ===== src/Engine.antt =====
-- pkg/workflow/engine: what guards the index of a workflow.
pub mod Access
pub mod Executor
