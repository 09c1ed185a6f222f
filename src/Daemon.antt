-- ===== src/Daemon.antt =====
-- The daemon: src/daemon.rs. What other tasks do between two looks at the shared tables is given
-- as functions of them.
pub mod Shared
pub mod Route
pub mod Control
pub mod Exec
pub mod Idle
pub mod Order
mod Tests
