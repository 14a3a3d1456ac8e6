-- ===== src/Schema.antt =====
-- crates/schema/src/lib.rs: the serializer that writes what a handler returned as JSON bytes.
pub mod Value
pub mod Escape
pub mod Write
pub mod Read
pub mod Accepts
pub mod Json
