-- ===== src/Server.antt =====
-- crates/nemo-server: the home server and its links to other servers.
pub mod Error
pub mod Mailbox
pub mod Tokens
pub mod Dirty
pub mod Home
pub mod Federation
pub mod Groups
