-- ===== src/Embassy.antt =====
-- crates/qup-embassy/src/lib.rs: the node's server.
pub mod Error
pub mod Sum
pub mod Stream
pub mod Perm
pub mod Key
pub mod Keys
pub mod Validator
pub mod Incoming
pub mod Serving
pub mod Text
