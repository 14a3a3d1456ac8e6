-- ===== src/Examples.antt =====
-- The theorems at concrete inputs, and runs of the model.
mod Script
mod Loops
mod Routes
mod Refused
mod Values
mod Json
mod Tasks
mod Servers
mod Statics
mod Cancels
mod Pools
