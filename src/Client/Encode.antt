-- ===== src/Client/Encode.antt =====
-- The encoders of crates/qup/src/client.rs. A `String` is its bytes. An `io::Error` of kind
-- `InvalidInput` is the reason that its text gives.
pub mod Frames
pub mod Values
use qup.Prelude.{
  ℕ, ◌^◌, Bool, true, false, [], ◌∷◌, ◌++◌, Bytes, Result, ok, err, ◌>>=◌, length, ltb,
  if◌then◌else◌,
}
use qup.Word.{u8_of_bool, ℤ, to_be_bytes, i64_to_be_bytes, contains}
use qup.Wire.Error.{Opcode}
use qup.Wire.Checksum.{compute_checksum}
use qup.Wire.Value.{ValueKind, kind_as_byte}

pub data Value : Type 0 where
  bool : Bool → Value
  i64 : ℤ → Value
  str : Bytes → Value

pub data InvalidInput : Type 0 where
  payload_exceeds_u16 string_has_nul string_exceeds_u16 : InvalidInput

-- u16::try_from(len)
unfoldable pub try_u16 : InvalidInput → ℕ → Result ℕ InvalidInput
try_u16 e len = if ltb len (2 ^ 16) then ok len else err e

unfoldable pub build_frame : Opcode → Bytes → Result Bytes InvalidInput
unfolding try_u16
build_frame opcode payload = do
  payload_len ← try_u16 payload_exceeds_u16 (length payload)
  ok (opcode ∷ (to_be_bytes 2 payload_len ++ (payload ++ compute_checksum opcode payload ∷ [])))

unfoldable pub push_str16 : Bytes → Bytes → Result Bytes InvalidInput
unfolding try_u16
push_str16 payload value = if contains value 0x00 then err string_has_nul else (do
  len ← try_u16 string_exceeds_u16 (length value)
  ok ((payload ++ to_be_bytes 2 len) ++ value))

unfoldable pub push_value : Bytes → Value → Result Bytes InvalidInput
unfolding push_str16 kind_as_byte
push_value payload (Value.bool value) =
    ok ((payload ++ kind_as_byte ValueKind.bool ∷ []) ++ u8_of_bool value ∷ [])
push_value payload (Value.i64 value) =
    ok ((payload ++ kind_as_byte ValueKind.i64 ∷ []) ++ i64_to_be_bytes value)
push_value payload (Value.str value) = push_str16 (payload ++ kind_as_byte ValueKind.str ∷ []) value

-- The payload of `send_write_request`.
unfoldable pub write_payload : ℕ → Value → Result Bytes InvalidInput
unfolding push_value
write_payload keyref value = push_value (to_be_bytes 2 keyref) value
