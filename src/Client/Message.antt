-- ===== src/Client/Message.antt =====
-- The owned messages and the errors of crates/qup/src/client.rs. A `String` is its bytes. The text
-- of a protocol error is its reason, and the name of an expected response is the message's kind.
use qup.Prelude.{ℕ, Bytes}
use qup.Wire.Error.{Opcode, FrameError, PayloadError}
use qup.Wire.Scalar.{KeyFlags}
use qup.Client.Encode.{Value, InvalidInput}

pub data Message : Type 0 where
  ok : Message
  caps : Bytes → Message
  identified : Bytes → Message
  keytab_len : ℕ → Message
  key : (keyflags : KeyFlags) → (name : Bytes) → Message
  value written : Value → Message
  error : ℕ → Message
  changed : ℕ → Message

pub record KeyInfo : Type 0 where
  pub keyref : ℕ
  pub keyflags : KeyFlags
  pub name : Bytes

-- An `io::Error`: of the stream, or of kind `InvalidInput` from an encoder.
pub data IoError (E : Type 0) : Type 0 where
  stream : E → IoError E
  invalid_input : InvalidInput → IoError E

-- The texts given to `protocol_error`.
pub data ProtocolReason : Type 0 where
  frame_validation_failed : FrameError → ProtocolReason
  payload_validation_failed : PayloadError → ProtocolReason
  client_direction_message : ProtocolReason

-- "OK", "CAPS", "IDENTIFIED", "KEYTABLEN", "KEY", "VALUE" and "WRITTEN".
pub data ResponseName : Type 0 where
  ok caps identified keytab_len key value written : ResponseName

pub data ClientError (E : Type 0) : Type 0 where
  io : IoError E → ClientError E
  protocol : ProtocolReason → ClientError E
  request_error : (request : Opcode) → (code : ℕ) → ClientError E
  unexpected_message : (expected : ResponseName) → (actual : Message) → ClientError E
  key_not_found ambiguous_key : (name : Bytes) → ClientError E
