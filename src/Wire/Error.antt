-- ===== src/Wire/Error.antt =====
-- crates/qup-core/src/types/error.rs, and the types of crates/qup-core/src/types/opcode.rs that
-- it names. An `Opcode(u8)` is its byte.
use qup.Prelude.{ℕ}
use qup.Wire.Utf8.{Utf8Error}

pub data WireDirection : Type 0 where
  client_to_node node_to_client : WireDirection

abbrev pub Opcode : Type 0
Opcode = ℕ

pub data FrameError : Type 0 where
  truncated : FrameError
  length_mismatch : (declared : ℕ) → (actual : ℕ) → FrameError
  reserved_opcode : Opcode → FrameError
  unknown_opcode : Opcode → FrameError
  invalid_direction : Opcode → WireDirection → FrameError
  checksum_mismatch : (sum : ℕ) → FrameError

pub data PayloadError : Type 0 where
  invalid_length : Opcode → (expected : ℕ) → (actual : ℕ) → PayloadError
  internal_length_exceeds_payload : PayloadError
  trailing_bytes : (remaining : ℕ) → PayloadError
  invalid_utf8 : Utf8Error → PayloadError
  string_contains_nul : PayloadError
  invalid_bool invalid_key_flags invalid_value_kind : ℕ → PayloadError
  unknown_opcode : Opcode → PayloadError
  malformed_caps : PayloadError
