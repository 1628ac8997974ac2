-- ===== src/Node.antt =====
-- crates/qup-test-node/src/main.rs: the test node.
pub mod Keys
pub mod Frames
pub mod State
pub mod Registry
pub mod Dispatch
pub mod Reading
