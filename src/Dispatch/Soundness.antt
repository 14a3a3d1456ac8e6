-- ===== src/Dispatch/Soundness.antt =====
-- A loop's life as a history of operations.
pub mod Stop
pub mod History
pub mod Ends
pub mod Ready
pub mod Unstarted
pub mod Owners
