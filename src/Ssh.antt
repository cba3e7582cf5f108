-- ===== src/Ssh.antt =====
-- internal/ssh: the SSH and SFTP client and the commands it runs on the remote host.
pub mod Auth
pub mod KnownHosts
pub mod Connect
pub mod Transfer
pub mod Helper
pub mod Terminal
mod Tests
