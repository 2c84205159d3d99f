-- ===== src/Execution.antt =====
-- internal/execution: the fenced store and the state machine of the steps.
pub mod Fenced
pub mod Takeover
pub mod Action
pub mod Steps
pub mod Resync
pub mod Transitions
pub mod Skips
pub mod Evidence
pub mod Fallback
pub mod Reopen
