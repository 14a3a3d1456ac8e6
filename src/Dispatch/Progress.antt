-- ===== src/Dispatch/Progress.antt =====
-- The operations of the crate against the order of Dispatch/Later.antt, one by one.
pub mod Calls
pub mod Tasks
pub mod Loops
