-- ===== src/Core.antt =====
-- crates/core/src/lib.rs: the extension module that joins routing, dispatch and the server.
pub mod Params
pub mod Kwargs
pub mod Service
pub mod Startup
pub mod Shutdown
