-- ===== src/Ssh.antt =====
-- src/ssh.rs: patterns of known_hosts, the scan of a file, the decision on a host key, the attempts to
-- authenticate, and the connection.
pub mod Pattern
pub mod KnownHosts
pub mod Auth
pub mod Connect
mod Tests
