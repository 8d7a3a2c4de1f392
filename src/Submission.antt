-- ===== src/Submission.antt =====
-- The submission of a landing: landoapi/api/transplants.py, with the tables that it writes.
pub mod Request
pub mod Tables
pub mod Stack
pub mod Assess
pub mod Prepare
mod Samples
pub mod Post
