-- ===== src/Tests/Session.antt =====
-- A run of the client of crates/qup/src/client.rs against a scripted peer.
use qup.Prelude.{◌≡◌, refl, true, [], ◌∷◌, ◌++◌, Bytes, ok, some, arith}
use qup.Word.{AllBytes, to_be_bytes, from_be_bytes}
use qup.Wire.Codes
use qup.Wire.Error.{node_to_client}
use qup.Wire.Opcode.{validate}
use qup.Wire.Checksum.{frame_sum, compute_checksum}
use qup.Wire.Frame.{parse_frame}
use qup.Wire.Message.{decode, word_body, value_body, expect_len, decode_message}
use qup.Wire.Message.Types.{changed}
use qup.Wire.Value.{decode_value}
use qup.Wire.Scalar.{decode_bool}
use qup.Wire.Cursor.{read_u8, read_u16, finish}
use qup.Client.Encode.{Value, build_frame, write_payload}
use qup.Client.Message.{Message}
use qup.Client.Owned.{owned_message, owned_ordinary_message, as_written}
use qup.Client.Session.{
  Client, FrameDirection, accept_frame, next_message, read_request_response, ask, send_frame, write,
}
use qup.Client.Session.Receive.{Verdict, accept_frame-Verdict}
use qup.Client.Session.Given.{Gives, accept_frame-build_frame}
use qup.Client.Session.Stream.{Receives, next_message-Receives}
use qup.Client.Session.Loop.{Answered, read_request_response-Answered}
use qup.Client.Session.Requests.{Exchange, asked_write, write-Exchange}
use qup.Tests.Script.{Peer, length-take_le, script_stream}

abbrev changed_frame : Bytes
changed_frame = 0x21 ∷ 0x00 ∷ 0x02 ∷ 0x00 ∷ 0x04 ∷ 0xd9 ∷ []

abbrev written_frame : Bytes
written_frame = 0x77 ∷ 0x00 ∷ 0x02 ∷ 0x01 ∷ 0x01 ∷ 0x85 ∷ []

-- A notification, and then the answer of a WRITE.
abbrev script : Bytes
script = changed_frame ++ written_frame

script-AllBytes : AllBytes script
script-AllBytes = omega arith

-- The trace callback keeps the frames, the latest first.
abbrev keep : FrameDirection → Bytes → Bytes → Bytes
keep direction frame frames = frame ++ frames

abbrev client : Client Peer Bytes
client = record { stream = record { position = 0; received = [] }; frame_trace = some [] }

accept_frame-Verdict_example : Verdict {E = Unit {0}} changed_frame (accept_frame changed_frame)
accept_frame-Verdict_example = accept_frame-Verdict changed_frame (omega arith)

builds_changed : build_frame Codes.changed (to_be_bytes 2 4) ≡ ok changed_frame
unfolding build_frame compute_checksum to_be_bytes
builds_changed = refl

changed_legal : validate Codes.changed node_to_client ≡ ok tt
unfolding validate
changed_legal = refl

accept_frame-build_frame_example : Gives {E = Unit {0}} (changed 4) (accept_frame changed_frame)
accept_frame-build_frame_example =
    accept_frame-build_frame (changed 4) changed_frame (omega arith) changed_legal builds_changed

next_message-Receives_example :
    Receives
      (script_stream script script-AllBytes)
      keep
      client
      (next_message (script_stream script script-AllBytes) keep client).0
      (next_message (script_stream script script-AllBytes) keep client).1
next_message-Receives_example =
    next_message-Receives (script_stream script script-AllBytes) keep client

read_request_response-Answered_example :
    Answered
      (script_stream script script-AllBytes)
      keep
      13
      client
      (read_request_response (script_stream script script-AllBytes) keep 13 client)
read_request_response-Answered_example =
    read_request_response-Answered (script_stream script script-AllBytes) keep 12
      (λ s. length-take_le s.position script) 13 client (omega arith)

abbrev write_frame : Bytes
write_frame = 0x57 ∷ 0x00 ∷ 0x04 ∷ 0x00 ∷ 0x04 ∷ 0x01 ∷ 0x01 ∷ 0x9f ∷ []

-- The client once the WRITE is answered.
abbrev client_after : Client Peer Bytes
client_after = record {
  stream = record { position = 12; received = write_frame };
  frame_trace = some (written_frame ++ (changed_frame ++ write_frame));
}

writes_flag :
    write (script_stream script script-AllBytes) keep 2 4 (Value.bool true) client
    ≡ (ok (Value.bool true), client_after)
unfolding write ask send_frame next_message read_request_response accept_frame decode_message decode
    value_body write_payload build_frame parse_frame validate frame_sum compute_checksum to_be_bytes
    from_be_bytes owned_message as_written word_body expect_len read_u16 decode_value read_u8
    decode_bool finish owned_ordinary_message
writes_flag = refl

write-Exchange_example :
    Exchange
      (script_stream script script-AllBytes)
      keep
      client
      (asked_write 4 (Value.bool true))
      (Message.written (Value.bool true))
      client_after
write-Exchange_example =
    write-Exchange (script_stream script script-AllBytes) keep 2 4 (Value.bool true)
      (Value.bool true) client client_after (omega arith) tt writes_flag
