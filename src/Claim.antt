-- ===== src/Claim.antt =====
-- internal/claim: which paths overlap, and which overlaps block.
pub mod Path
pub mod Pieces
pub mod Overlap
pub mod Matrix
pub mod Policy
mod Tests
