-- ===== src/Wire.antt =====
-- crates/qup-core: the wire types, the frame parser and the payload decoders.
pub mod Utf8
pub mod Error
pub mod Codes
pub mod Opcode
pub mod Checksum
pub mod Frame
pub mod Cursor
pub mod Scalar
pub mod Value
pub mod Caps
pub mod Message
pub mod Reader
