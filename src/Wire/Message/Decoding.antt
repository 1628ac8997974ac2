-- ===== src/Wire/Message/Decoding.antt =====
-- `MessageRef::decode` against the wire form of the messages: it reads every message that the
-- wire can carry, and nothing else.
pub mod Sound
use qup.Prelude.{
  ℕ, ◌<◌, ◌^◌, ◌≡◌, refl, ap, [], ◌∷◌, ◌++◌, append-nil, Bytes, Result, ok, err, length, ◌==◌,
  ==_refl, true, false, ltb, lt→ltb, Bool, if◌then◌else◌, arith,
}
use qup.Word.{to_be_bytes}
use qup.Word.BigEndian.{length-to_be_bytes}
use qup.Wire.Error.{Opcode, PayloadError}
use qup.Wire.Scalar.{KeyFlags, new_key_flags}
use qup.Wire.Scalar.Flags.{new_key_flags-lt}
use qup.Wire.Value.{ValueRef, decode_value}
use qup.Wire.Value.Encoding.{encode_value, IsWireValue, decode_value-encode_value}
use qup.Wire.Cursor.{finish, read_u16, read_str16}
use qup.Wire.Cursor.Reads.{bytes16, read_u8-cons, read_u16-append, read_str16-append}
use qup.Wire.Cursor.Inverse.{IsStr16}
use qup.Wire.Caps.{CapsRef, parse}
use qup.Wire.Message.{
  decode, decode_empty, expect_empty, expect_len, word_body, write_body, identified_body, key_body,
  value_response, value_body, caps_body, error_body,
}
use qup.Wire.Message.Types.{
  RequestRef, OrdinaryResponseRef, MessageRef, request, ordinary_response, compatibility_request,
  compatibility_response, error, changed,
}
use qup.Wire.Message.Encoding.{opcode_of, payload_of, IsU16, IsWireMessage}

read_u16_whole : (w : ℕ) → IsU16 w → read_u16 (to_be_bytes 2 w) ≡ (ok w, [])
read_u16_whole w h = rw append-nil at (read_u16-append w [] h)

decode_value_whole :
    (value : ValueRef) → IsWireValue value → decode_value (encode_value value) ≡ (ok value, [])
decode_value_whole value v = rw append-nil at (decode_value-encode_value value [] v)

read_str16_whole : (s : Bytes) → IsStr16 s → read_str16 (bytes16 s) ≡ (ok s, [])
read_str16_whole s h = rw append-nil at (read_str16-append s [] h.fits h.no_nul h.utf8)

word_body_lem :
    (opcode : Opcode) (constructor : ℕ → MessageRef) (w : ℕ)
    → IsU16 w
    → word_body opcode constructor (to_be_bytes 2 w) ≡ (ok (constructor w), [])
unfolding word_body expect_len
word_body_lem opcode constructor w h = rw (length-to_be_bytes 2 w) (rw (read_u16_whole w h))

write_body_lem :
    (keyref : ℕ) (value : ValueRef)
    → IsU16 keyref
    → IsWireValue value
    → write_body (to_be_bytes 2 keyref ++ encode_value value)
      ≡ (ok (request (RequestRef.write keyref value)), [])
unfolding write_body finish
write_body_lem keyref value h v =
    rw (read_u16-append keyref (encode_value value) h) (rw (decode_value_whole value v))

value_body_lem :
    (is_written : Bool) (value : ValueRef)
    → IsWireValue value
    → value_body is_written (encode_value value) ≡ (ok (value_response is_written value), [])
unfolding value_body finish
value_body_lem is_written value v = rw (decode_value_whole value v)

identified_body_lem :
    (nodeid : Bytes)
    → IsStr16 nodeid
    → identified_body (bytes16 nodeid)
      ≡ (ok (ordinary_response (OrdinaryResponseRef.identified nodeid)), [])
unfolding identified_body finish
identified_body_lem nodeid h = rw (read_str16_whole nodeid h)

key_body_lem :
    (keyflags : KeyFlags) (name : Bytes)
    → keyflags < 8
    → IsStr16 name
    → key_body (keyflags ∷ bytes16 name)
      ≡ (ok (ordinary_response (OrdinaryResponseRef.key keyflags name)), [])
unfolding key_body finish
key_body_lem keyflags name lt h = rw (read_u8-cons keyflags (bytes16 name)) (
    rw (new_key_flags-lt keyflags (omega arith))
      (rw (lt→ltb keyflags 8 lt) (rw (read_str16_whole name h))))

caps_body_lem :
    (caps : CapsRef)
    → IsStr16 caps.raw
    → parse caps.raw ≡ ok caps
    → caps_body (bytes16 caps.raw) ≡ (ok (compatibility_response caps), [])
unfolding caps_body finish
caps_body_lem caps h parsed = rw (read_str16_whole caps.raw h) (rw parsed)

abbrev result : Result MessageRef PayloadError × Bytes → Result MessageRef PayloadError
result r = r.0

-- A message that the wire can carry is decoded from its opcode and its wire form.
pub decode-payload_of :
    (message : MessageRef)
    → IsWireMessage message
    → decode (opcode_of message) (payload_of message) ≡ ok message
unfolding decode decode_empty expect_empty error_body expect_len
decode-payload_of (request RequestRef.ping) h = refl
decode-payload_of (request RequestRef.identify) h = refl
decode-payload_of (request RequestRef.get_keytab_len) h = refl
decode-payload_of (request (RequestRef.get_key keyref)) h =
    ap result (word_body_lem b'S' (λ k. request (RequestRef.get_key k)) keyref h)
decode-payload_of (request (RequestRef.get keyref)) h =
    ap result (word_body_lem b'G' (λ k. request (RequestRef.get k)) keyref h)
decode-payload_of (request (RequestRef.write keyref value)) h =
    ap result (write_body_lem keyref value h.0 h.1)
decode-payload_of (request (RequestRef.observe keyref)) h =
    ap result (word_body_lem b'N' (λ k. request (RequestRef.observe k)) keyref h)
decode-payload_of (request (RequestRef.unobserve keyref)) h =
    ap result (word_body_lem b'U' (λ k. request (RequestRef.unobserve k)) keyref h)
decode-payload_of (ordinary_response OrdinaryResponseRef.ok) h = refl
decode-payload_of (ordinary_response (OrdinaryResponseRef.identified nodeid)) h =
    ap result (identified_body_lem nodeid h)
decode-payload_of (ordinary_response (OrdinaryResponseRef.keytab_len count)) h =
    ap result
      (word_body_lem b'c' (λ c. ordinary_response (OrdinaryResponseRef.keytab_len c)) count h)
decode-payload_of (ordinary_response (OrdinaryResponseRef.key keyflags name)) h =
    ap result (key_body_lem keyflags name h.0 h.1)
decode-payload_of (ordinary_response (OrdinaryResponseRef.value value)) h =
    ap result (value_body_lem false value h)
decode-payload_of (ordinary_response (OrdinaryResponseRef.written value)) h =
    ap result (value_body_lem true value h)
decode-payload_of compatibility_request h = refl
decode-payload_of (compatibility_response caps) h = ap result (caps_body_lem caps h.0 h.1)
decode-payload_of (error e) h = refl
decode-payload_of (changed keyref) h = ap result (word_body_lem b'!' changed keyref h)
