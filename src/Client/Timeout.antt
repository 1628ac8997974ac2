-- ===== src/Client/Timeout.antt =====
-- The raw requests and the read with a timeout of crates/qup/src/client.rs. `expires` stands for
-- Tokio's timer: whether it runs out before the message of a read is complete, and then the state of
-- the stream, from which a part of the message may have been taken.
use qup.Prelude.{ℕ, Option, none, some, [], Bytes, Result, ok, map_ok}
use qup.Prelude.Exec.{◌>>=◌}
use qup.Word.{to_be_bytes}
use qup.Wire.Error.{Opcode}
use qup.Wire.Codes
use qup.Client.Encode.{Value, write_payload}
use qup.Client.Message.{Message, ClientError}
use qup.Client.Session.{ByteStream, FrameDirection, Client, Call, encoded, send_frame, next_message}

module _ {S E T : Type 0} (io_stream : ByteStream S E)
    (on_frame : FrameDirection → Bytes → T → T) where
  unfoldable pub send_request : Opcode → Bytes → Call io_stream on_frame (Unit {0})
  send_request opcode payload = send_frame io_stream on_frame opcode payload

  unfoldable pub send_empty_request : Opcode → Call io_stream on_frame (Unit {0})
  send_empty_request opcode = send_frame io_stream on_frame opcode []

  unfoldable pub send_keyref_request : Opcode → ℕ → Call io_stream on_frame (Unit {0})
  send_keyref_request opcode keyref = send_frame io_stream on_frame opcode (to_be_bytes 2 keyref)

  unfoldable pub send_write_request : ℕ → Value → Call io_stream on_frame (Unit {0})
  send_write_request keyref value = do
    payload ← encoded io_stream on_frame (write_payload keyref value)
    send_frame io_stream on_frame Codes.write payload

  -- `message.map(Some)`
  abbrev pub with_some :
      Result Message (ClientError E) × Client S T
      → Result (Option Message) (ClientError E) × Client S T
  with_some (message, client) = (map_ok some message, client)

  abbrev pub within_time :
      Option S → Client S T → Result (Option Message) (ClientError E) × Client S T
  within_time (some stream) client = (ok none, record client { stream = stream })
  within_time none client = with_some (next_message io_stream on_frame client)

  unfoldable pub next_message_timeout :
      (ℕ → S → Option S) → ℕ → Call io_stream on_frame (Option Message)
  unfolding next_message
  next_message_timeout expires duration client = within_time (expires duration client.stream) client
