-- ===== src/Client/Encode/Values.antt =====
-- What the client encodes is the wire form of the message that it means.
use qup.Prelude.{
  ℕ, ◌^◌, ◌<◌, ◌≡◌, ◌∙◌, false, [], ◌∷◌, ◌++◌, append_assoc, Bytes, Result, ok, length, arith,
}
use qup.Word.{u8_of_bool, IsI64, to_be_bytes, i64_to_be_bytes, contains}
use qup.Wire.Utf8.{IsUtf8}
use qup.Wire.Codes
use qup.Wire.Cursor.Reads.{bytes16}
use qup.Wire.Cursor.Inverse.{IsStr16}
use qup.Wire.Value.{ValueRef, bool_tag, i64_tag, str_tag}
use qup.Wire.Value.Encoding.{encode_value, IsWireValue}
use qup.Wire.Message.{decode}
use qup.Wire.Message.Types.{RequestRef, request}
use qup.Wire.Message.Encoding.{IsU16}
use qup.Wire.Message.Decoding.{decode-payload_of}
use qup.Client.Encode.{Value, InvalidInput, push_str16, push_value, write_payload}

-- The borrowed form of a value, and what Rust's types say of it.
abbrev pub borrowed : Value → ValueRef
borrowed (Value.bool value) = ValueRef.bool value
borrowed (Value.i64 value) = ValueRef.i64 value
borrowed (Value.str value) = ValueRef.str value

abbrev pub IsValue : Value → Type 0
IsValue (Value.bool value) = Unit {0}
IsValue (Value.i64 value) = IsI64 value
IsValue (Value.str value) = IsUtf8 value

push_str16-facts :
    (payload value : Bytes) {out : Bytes}
    → push_str16 payload value ≡ ok out
    → (out ≡ (payload ++ to_be_bytes 2 (length value)) ++ value)
      × (contains value 0x00 ≡ false)
      × (length value < 2 ^ 16)
unfolding push_str16
push_str16-facts payload value h = ground arith

ok-injective : {a b : Bytes} → ◌≡◌ {A = Result Bytes InvalidInput} (ok a) (ok b) → b ≡ a
ok-injective e = cc

-- What `push_str16` appends, and what it has checked.
push_str16-ok :
    (payload value : Bytes) {out : Bytes}
    → IsUtf8 value
    → push_str16 payload value ≡ ok out
    → (out ≡ payload ++ bytes16 value) × IsStr16 value
unfolding push_str16
push_str16-ok payload value utf8 h =
    let (out_is, no_nul, lt) = push_str16-facts payload value h in
    (
      out_is ∙ append_assoc payload (to_be_bytes 2 (length value)) value,
      record { fits = lt; no_nul = no_nul; utf8 = utf8 },
    )

pub push_value-ok :
    (payload : Bytes) (value : Value) {out : Bytes}
    → IsValue value
    → push_value payload value ≡ ok out
    → (out ≡ payload ++ encode_value (borrowed value)) × IsWireValue (borrowed value)
unfolding push_value
push_value-ok payload (Value.bool b) v h =
    (ok-injective h ∙ append_assoc payload (bool_tag ∷ []) (u8_of_bool b ∷ []), tt)
push_value-ok payload (Value.i64 z) v h =
    (ok-injective h ∙ append_assoc payload (i64_tag ∷ []) (i64_to_be_bytes z), v)
push_value-ok payload (Value.str s) v h =
    let (out_is, wire) = push_str16-ok (payload ++ str_tag ∷ []) s v h in
    (out_is ∙ append_assoc payload (str_tag ∷ []) (bytes16 s), wire)

-- If the client can encode a `WRITE` request, the node decodes the key reference and the value
-- from its payload.
pub decode-write_payload :
    (keyref : ℕ) (value : Value) (payload : Bytes)
    → IsU16 keyref
    → IsValue value
    → write_payload keyref value ≡ ok payload
    → decode Codes.write payload ≡ ok (request (RequestRef.write keyref (borrowed value)))
unfolding write_payload
decode-write_payload keyref value payload k v h =
    let (out, wire) = push_value-ok (to_be_bytes 2 keyref) value v h in
    rw out (decode-payload_of (request (RequestRef.write keyref (borrowed value))) (k, wire))
