-- ===== src/Proto.antt =====
-- crates/sp-proto: the wire protocol shared by both hops.
pub mod Utf8
pub mod Session
pub mod Frame
pub mod Decoder
pub mod Stream
pub mod Tests
