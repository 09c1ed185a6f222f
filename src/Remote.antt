-- ===== src/Remote.antt =====
-- The remote side of the daemon: src/remote.rs.
pub mod Engine
pub mod ServeLog
pub mod Shell
pub mod Deploy
pub mod Forwarder
mod Tests
