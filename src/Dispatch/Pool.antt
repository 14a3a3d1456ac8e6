-- ===== src/Dispatch/Pool.antt =====
-- `EventLoopPool`: several loops, and the choice of the least-loaded one.
pub mod Select
pub mod Start
pub mod Fleet
pub mod Sound
pub mod Load
pub mod Places
