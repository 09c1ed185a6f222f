-- ===== src/Serve.antt =====
-- crates/sp-serve: the remote server that runs one command.
pub mod Pipe
pub mod State
pub mod Spawn
pub mod Watch
pub mod Output
pub mod Input
pub mod Execute
mod Tests
