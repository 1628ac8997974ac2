-- ===== src/Node/Frames.antt =====
-- The frames that crates/qup-test-node/src/main.rs sends. `err` is the panic of a length that does
-- not fit sixteen bits.
pub mod Delivery
use qup.Prelude.{ℕ, ◌^◌, [], ◌∷◌, ◌++◌, Bytes, Result, ok, err, ◌>>=◌, length, ltb, if◌then◌else◌}
use qup.Word.{ℤ, to_be_bytes, i64_to_be_bytes}
use qup.Wire.Codes
use qup.Wire.Error.{Opcode}
use qup.Wire.Checksum.{compute_checksum}
use qup.Wire.Value.{ValueKind, kind_as_byte}
use qup.Node.Keys.{KeySpec, caps_text, node_id, key_count}

pub data WireValue : Type 0 where
  i64 : ℤ → WireValue
  str : Bytes → WireValue

pub data Panic : Type 0 where
  length_exceeds_u16 : Panic

-- u16::try_from(len).unwrap_or_else(|_| panic!(…))
abbrev pub u16_len : ℕ → Result ℕ Panic
u16_len len = if ltb len (2 ^ 16) then ok len else err length_exceeds_u16

unfoldable pub build_frame : Opcode → Bytes → Result Bytes Panic
build_frame opcode payload = do
  len ← u16_len (length payload)
  ok (opcode ∷ (to_be_bytes 2 len ++ (payload ++ compute_checksum opcode payload ∷ [])))

unfoldable pub push_str16 : Bytes → Bytes → Result Bytes Panic
push_str16 payload value = do
  len ← u16_len (length value)
  ok ((payload ++ to_be_bytes 2 len) ++ value)

unfoldable pub push_value : Bytes → WireValue → Result Bytes Panic
unfolding push_str16 kind_as_byte
push_value payload (WireValue.i64 value) =
    ok ((payload ++ kind_as_byte ValueKind.i64 ∷ []) ++ i64_to_be_bytes value)
push_value payload (WireValue.str value) =
    push_str16 (payload ++ kind_as_byte ValueKind.str ∷ []) value

unfoldable pub encode_ok : Result Bytes Panic
unfolding build_frame
encode_ok = build_frame Codes.ok []

unfoldable pub encode_identified : Result Bytes Panic
unfolding push_str16 build_frame
encode_identified = do payload ← push_str16 [] node_id; build_frame Codes.identified payload

unfoldable pub encode_keytab_len : Result Bytes Panic
unfolding build_frame
encode_keytab_len = build_frame Codes.keytablen (to_be_bytes 2 key_count)

unfoldable pub encode_key : KeySpec → Result Bytes Panic
unfolding push_str16 build_frame
encode_key spec = do payload ← push_str16 (spec.flags ∷ []) spec.name; build_frame Codes.key payload

unfoldable pub encode_value_response : Opcode → WireValue → Result Bytes Panic
unfolding push_value build_frame
encode_value_response opcode value = do payload ← push_value [] value; build_frame opcode payload

unfoldable pub encode_error : ℕ → Result Bytes Panic
unfolding build_frame
encode_error code = build_frame Codes.error (code ∷ [])

unfoldable pub encode_caps : Result Bytes Panic
unfolding push_str16 build_frame
encode_caps = do payload ← push_str16 [] caps_text; build_frame Codes.caps payload

unfoldable pub encode_changed : ℕ → Result Bytes Panic
unfolding build_frame
encode_changed keyref = build_frame Codes.changed (to_be_bytes 2 keyref)
