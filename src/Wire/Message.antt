-- ===== src/Wire/Message.antt =====
-- crates/qup-core/src/types/message.rs: typed payloads and their decoding by opcode.
pub mod Types
pub mod Encoding
pub mod Decoding
use qup.Prelude.{
  ℕ, Bool, true, false, Bytes, Result, ok, err, map_ok, length, is_empty, get_elem?, none, some,
  Option, [], ◌∷◌, ◌≡◌, refl, ◌==◌, if◌then◌else◌,
}
use qup.Prelude.Exec.{Exec, pure, lift, ◌>>=◌, ◌>>◌}
use qup.Wire.Error.{Opcode, PayloadError, invalid_length}
use qup.Wire.Scalar.{new_key_flags}
use qup.Wire.Value.{ValueRef, decode_value}
use qup.Wire.Cursor.{Read, finish, read_u8, read_u16, read_str16}
use qup.Wire.Caps.{parse}
use qup.Wire.Frame.{FrameView}
use Types.{
  RequestRef, OrdinaryResponseRef, ErrorResponse, MessageRef, request, ordinary_response,
  compatibility_request, compatibility_response, error, changed,
}

-- A cursor over the payload is made, used and dropped.
abbrev pub run : {A : Type 0} → Read A → Bytes → Result A PayloadError
run read payload = (read payload).0

unfoldable pub expect_empty : Opcode → Bytes → Result (Unit {0}) PayloadError
expect_empty opcode payload =
    if is_empty payload then ok tt else err (invalid_length opcode 0 (length payload))

unfoldable pub expect_len : Opcode → Bytes → ℕ → Result (Unit {0}) PayloadError
expect_len opcode payload expected =
    if length payload == expected
    then ok tt
    else err (invalid_length opcode expected (length payload))

-- `expect_empty(opcode, payload).map(|()| message)`
unfoldable pub decode_empty : Opcode → MessageRef → Bytes → Result MessageRef PayloadError
decode_empty opcode message payload = map_ok (λ _. message) (expect_empty opcode payload)

-- A payload of one `u16`: decode_keyref_request, decode_keytablen and decode_changed. The check of
-- the length reads the whole payload, which is the cursor's unread tail at the start.
unfoldable pub word_body : Opcode → (ℕ → MessageRef) → Read MessageRef
word_body opcode constructor payload =
    (do lift (expect_len opcode payload 2); word ← read_u16; pure (constructor word)) payload

-- decode_write
unfoldable pub write_body : Read MessageRef
write_body = do
  keyref ← read_u16
  value ← decode_value
  finish
  pure (request (RequestRef.write keyref value))

-- decode_identified
unfoldable pub identified_body : Read MessageRef
identified_body = do
  nodeid ← read_str16
  finish
  pure (ordinary_response (OrdinaryResponseRef.identified nodeid))

-- decode_key
unfoldable pub key_body : Read MessageRef
key_body = do
  bits ← read_u8
  keyflags ← lift (new_key_flags bits)
  name ← read_str16
  finish
  pure (ordinary_response (OrdinaryResponseRef.key keyflags name))

abbrev pub value_response : Bool → ValueRef → MessageRef
value_response is_written value =
    ordinary_response
      (if is_written then OrdinaryResponseRef.written value else OrdinaryResponseRef.value value)

-- decode_value_response
unfoldable pub value_body : Bool → Read MessageRef
value_body is_written = do value ← decode_value; finish; pure (value_response is_written value)

-- decode_caps
unfoldable pub caps_body : Read MessageRef
caps_body = do raw ← read_str16; caps ← lift (parse raw); finish; pure (compatibility_response caps)

-- `payload.first().copied().ok_or(…)`
abbrev pub first_or : PayloadError → Option ℕ → Result ℕ PayloadError
first_or e none = err e
first_or e (some b) = ok b

-- decode_error
unfoldable pub error_body : Opcode → Read MessageRef
error_body opcode payload =
    (do
      lift (expect_len opcode payload 1)
      code ← lift (first_or (invalid_length opcode 1 (length payload)) (get_elem? payload 0))
      pure (error (record { code = code })))
      payload

-- MessageRef::decode
unfoldable pub decode : Opcode → Bytes → Result MessageRef PayloadError
decode opcode payload =
    if opcode == b'P'
    then decode_empty opcode (request RequestRef.ping) payload
    else if opcode == b'I'
    then decode_empty opcode (request RequestRef.identify) payload
    else if opcode == b'C'
    then decode_empty opcode (request RequestRef.get_keytab_len) payload
    else if opcode == b'S'
    then run (word_body opcode (λ keyref. request (RequestRef.get_key keyref))) payload
    else if opcode == b'G'
    then run (word_body opcode (λ keyref. request (RequestRef.get keyref))) payload
    else if opcode == b'N'
    then run (word_body opcode (λ keyref. request (RequestRef.observe keyref))) payload
    else if opcode == b'U'
    then run (word_body opcode (λ keyref. request (RequestRef.unobserve keyref))) payload
    else if opcode == b'W'
    then run write_body payload
    else if opcode == b'?'
    then decode_empty opcode compatibility_request payload
    else if opcode == b'k'
    then decode_empty opcode (ordinary_response OrdinaryResponseRef.ok) payload
    else if opcode == b'i'
    then run identified_body payload
    else if opcode == b'c'
    then run (word_body opcode (λ count. ordinary_response (OrdinaryResponseRef.keytab_len count)))
        payload
    else if opcode == b's'
    then run key_body payload
    else if opcode == b'g'
    then run (value_body false) payload
    else if opcode == b'w'
    then run (value_body true) payload
    else if opcode == b':'
    then run caps_body payload
    else if opcode == b'@'
    then run (error_body opcode) payload
    else if opcode == b'!'
    then run (word_body opcode changed) payload
    else err (PayloadError.unknown_opcode opcode)

-- FrameView::decode_message
unfoldable pub decode_message : FrameView → Result MessageRef PayloadError
decode_message view = decode view.header.opcode view.payload
