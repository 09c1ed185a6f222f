-- ===== src/Client.antt =====
-- The client: src/client.rs and the command line of src/main.rs.
pub mod Capture
pub mod Quote
pub mod Run
pub mod Connect
mod Tests
