-- ===== src/Lss.antt =====
-- cmd/lss: the session helper that runs on the remote host.
mod Tests
pub mod Conn
pub mod Frame
pub mod Session
pub mod Client
pub mod Daemon
pub mod Commands
pub mod Startup
pub mod Lifecycle
