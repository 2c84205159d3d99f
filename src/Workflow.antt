-- ===== src/Workflow.antt =====
-- internal/workflow: the files of a workflow, their validation and the order of their steps.
pub mod Types
pub mod Cycles
pub mod Sort
pub mod Validate
pub mod Names
pub mod Compose
