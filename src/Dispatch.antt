-- ===== src/Dispatch.antt =====
-- crates/dispatch/src/lib.rs: the boundary that hands requests to Python's event loops.
pub mod Types
pub mod Python
pub mod Channel
pub mod Respond
pub mod Finish
pub mod Step
pub mod Cancel
pub mod Turn
pub mod Accessors
pub mod Traverse
pub mod Trace
pub mod Loop
pub mod Later
pub mod Acts
pub mod Progress
pub mod Soundness
pub mod Pool
