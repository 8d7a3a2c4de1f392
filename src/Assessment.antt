-- ===== src/Assessment.antt =====
-- The assessment of a landing: what blocks the landing of a stack of revisions, and what its user has
-- to acknowledge.
pub mod Reviews
pub mod State
pub mod Blockers
pub mod Checks
pub mod Path
pub mod Warnings
pub mod Acknowledgement
pub mod Samples
