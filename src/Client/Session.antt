-- ===== src/Client/Session.antt =====
-- The methods of `Client` in crates/qup/src/client.rs.
pub mod Receive
pub mod Given
pub mod Stream
pub mod Loop
pub mod Exchange
pub mod Requests
use qup.Prelude.{
  ℕ, zero, suc, ◌+◌, ◌-◌, ◌≡◌, Bool, true, false, Option, none, some, [], ◌∷◌, ◌++◌, List, Bytes,
  Result, ok, err, map_err, length, if◌then◌else◌,
}
use qup.Prelude.Exec.{Exec, pure, raise, lift, ◌>>=◌, ◌>>◌}
use qup.Word.{AllBytes, from_be_bytes, to_be_bytes}
use qup.Wire.Codes
use qup.Wire.Error.{Opcode, node_to_client, FrameError, PayloadError}
use qup.Wire.Frame.{FrameView, parse_frame}
use qup.Wire.Message.Types.{MessageRef}
use qup.Wire.Message.{decode_message}
use qup.Wire.Reader.{byte_at}
use qup.Client.Encode.{Value, InvalidInput, build_frame, write_payload}
use qup.Client.Message.{
  Message, KeyInfo, IoError, stream, invalid_input, ProtocolReason, frame_validation_failed,
  payload_validation_failed, ClientError, io, protocol, key_not_found, ambiguous_key,
}
use qup.Client.Owned.{
  owned_message, as_ok, as_caps, as_identified, as_keytab_len, as_key, as_value, as_written,
}

-- Tokio's `AsyncRead` and `AsyncWrite` of the caller's stream. `taken` and `sent` are the bytes that
-- went over the stream so far. Of an implementation we assume what its documentation says: when
-- `read_exact` succeeds, the buffer is filled with the next bytes that arrive, and when `write_all`
-- succeeds, all of its bytes were written.
pub record ByteStream (S E : Type 0) : Type 0 where
  pub read_exact : ℕ → Exec S E Bytes
  pub write_all : Bytes → Exec S E (Unit {0})
  pub taken : S → Bytes
  pub sent : S → Bytes
  pub fills :
      (n : ℕ) (s s' : S) (bytes : Bytes)
      → read_exact n s ≡ (ok bytes, s')
      → (length bytes ≡ n) × AllBytes bytes × (taken s' ≡ taken s ++ bytes) × (sent s' ≡ sent s)
  pub writes :
      (bytes : Bytes) (s s' : S)
      → write_all bytes s ≡ (ok tt, s')
      → (taken s' ≡ taken s) × (sent s' ≡ sent s ++ bytes)

pub data FrameDirection : Type 0 where
  tx rx : FrameDirection

-- The buffers `frame_buf` and `payload_buf` are left out: each method writes them before it reads
-- them. `frame_trace` holds what its callback has captured.
pub record Client (S T : Type 0) : Type 0 where
  pub stream : S
  pub frame_trace : Option T

-- A call ends with the client's error, or has not ended yet when the fuel of the loop that waits
-- for an answer is used up.
pub data Halt (E : Type 0) : Type 0 where
  failed : ClientError E → Halt E
  out_of_fuel : Halt E

-- `matches!(message, Message::Changed(_))`
abbrev pub is_changed : Message → Bool
is_changed (Message.changed keyref) = true
is_changed _ = false

module _ {E : Type 0} where
  -- The `map_err(…)?` after the parser and after the decoder.
  unfoldable pub accept_message : Result MessageRef PayloadError → Result Message (ClientError E)
  accept_message (ok message) = owned_message message
  accept_message (err e) = err (protocol (payload_validation_failed e))

  unfoldable pub accept_view : Result FrameView FrameError → Result Message (ClientError E)
  accept_view (ok view) = accept_message (decode_message view)
  accept_view (err e) = err (protocol (frame_validation_failed e))

  -- What is done with the bytes of a whole frame, once they have arrived.
  unfoldable pub accept_frame : Bytes → Result Message (ClientError E)
  unfolding accept_view accept_message
  accept_frame frame = accept_view (parse_frame node_to_client frame)

module _ {S E T : Type 0} (io_stream : ByteStream S E)
    (on_frame : FrameDirection → Bytes → T → T) where
  abbrev pub Call : Type 0 → Type 0
  Call A = Exec (Client S T) (ClientError E) A

  abbrev pub Waiting : Type 0 → Type 0
  Waiting A = Exec (Client S T) (Halt E) A

  -- `stream.read_exact(&mut buf).await?` and `stream.write_all(buf).await?`
  abbrev pub receive : ℕ → Call Bytes
  receive n client =
      let (bytes, s) = io_stream.read_exact n client.stream in
      (map_err (λ e. io (IoError.stream e)) bytes, record client { stream = s })

  abbrev pub transmit : Bytes → Call (Unit {0})
  transmit bytes client =
      let (done, s) = io_stream.write_all bytes client.stream in
      (map_err (λ e. io (IoError.stream e)) done, record client { stream = s })

  abbrev traced : FrameDirection → Bytes → Option T → Option T
  traced direction frame none = none
  traced direction frame (some trace) = some (on_frame direction frame trace)

  abbrev pub trace_frame : FrameDirection → Bytes → Call (Unit {0})
  trace_frame direction frame client =
      (ok tt, record client { frame_trace = traced direction frame client.frame_trace })

  -- `?` on an encoder's result.
  abbrev pub encoded : Result Bytes InvalidInput → Call Bytes
  encoded r = lift (map_err (λ e. io (invalid_input e)) r)

  unfoldable pub send_frame : Opcode → Bytes → Call (Unit {0})
  send_frame opcode payload = do
    frame ← encoded (build_frame opcode payload)
    trace_frame FrameDirection.tx frame
    transmit frame

  unfoldable pub next_message : Call Message
  next_message = do
    header ← receive 3
    payload ← receive (from_be_bytes (byte_at header 1 ∷ byte_at header 2 ∷ []))
    checksum ← receive 1
    trace_frame FrameDirection.rx (header ++ (payload ++ checksum))
    lift (accept_frame (header ++ (payload ++ checksum)))

  -- A call that needs no fuel, within one that does.
  abbrev pub call : {A : Type 0} → Call A → Waiting A
  call m client = let (r, client') = m client in (map_err failed r, client')

  -- The `loop`: `fuel` bounds the messages that are read.
  unfoldable pub read_request_response : ℕ → Waiting Message
  read_request_response zero = raise out_of_fuel
  read_request_response (suc fuel) = do
    message ← call next_message
    let again = read_request_response fuel
    if is_changed message then again else pure message

  module _ (fuel : ℕ) where
    -- The request of an opcode and a payload, and the reading of its answer.
    unfoldable pub ask :
        {A : Type 0} → Opcode → Bytes → (Message → Result A (ClientError E)) → Waiting A
    ask opcode payload answer = do
      call (send_frame opcode payload)
      message ← read_request_response fuel
      lift (map_err failed (answer message))

    unfoldable pub ping : Waiting (Unit {0})
    ping = ask Codes.ping [] (as_ok Codes.ping)

    unfoldable pub caps : Waiting Bytes
    caps = ask Codes.getcaps [] (as_caps Codes.getcaps)

    unfoldable pub identify : Waiting Bytes
    identify = ask Codes.identify [] (as_identified Codes.identify)

    unfoldable pub key_count : Waiting ℕ
    key_count = ask Codes.getkeytablen [] (as_keytab_len Codes.getkeytablen)

    unfoldable pub key : ℕ → Waiting KeyInfo
    key keyref = ask Codes.getkey (to_be_bytes 2 keyref) (as_key Codes.getkey keyref)

    unfoldable pub get : ℕ → Waiting Value
    get keyref = ask Codes.get (to_be_bytes 2 keyref) (as_value Codes.get)

    -- The payload is encoded before anything is sent.
    unfoldable pub write : ℕ → Value → Waiting Value
    write keyref value = do
      payload ← call (encoded (write_payload keyref value))
      ask Codes.write payload (as_written Codes.write)

    unfoldable pub observe : ℕ → Waiting (Unit {0})
    observe keyref = ask Codes.observe (to_be_bytes 2 keyref) (as_ok Codes.observe)

    unfoldable pub unobserve : ℕ → Waiting (Unit {0})
    unobserve keyref = ask Codes.unobserve (to_be_bytes 2 keyref) (as_ok Codes.unobserve)
