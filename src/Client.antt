-- ===== src/Client.antt =====
-- crates/qup/src/client.rs: the host-side client.
pub mod Encode
pub mod Message
pub mod Owned
pub mod Session
pub mod Names
pub mod Timeout
