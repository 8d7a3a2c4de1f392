-- ===== src/Treestatus.antt =====
-- Tree status: whether a tree takes landings, the log of its changes, and the stack of changes that
-- can be reverted.
pub mod Tree
pub mod Store
pub mod Stack
pub mod Update
pub mod Handlers
pub mod Samples
