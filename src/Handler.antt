-- ===== src/Handler.antt =====
-- lact-daemon/src/server/handler.rs: the state of the daemon and what its requests do to it.
pub mod State
pub mod Edit
pub mod Settings
pub mod Profiles
