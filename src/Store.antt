-- ===== src/Store.antt =====
-- internal/store: the rows, the in-memory store and its repositories.
pub mod Types
pub mod State
pub mod Projects
pub mod Executions
pub mod Steps
pub mod Attempts
pub mod Generations
pub mod Sorting
pub mod Events
pub mod Transports
pub mod PathClaims
pub mod Leases
pub mod Interactions
pub mod Tx
pub mod Resolutions
pub mod Calls
pub mod Integrity
pub mod Exclusion
pub mod Fencing
pub mod Atomic
pub mod Cursors
pub mod Pages
pub mod Deltas
