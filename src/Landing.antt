-- ===== src/Landing.antt =====
-- The landing of revisions: jobs, their queue, the worker that runs them, and their cancellation.
pub mod Revision
pub mod Job
pub mod Queue
pub mod Repo
pub mod Interface
pub mod Run
pub mod Worker
pub mod Start
pub mod Table
pub mod Cancel
pub mod Samples
