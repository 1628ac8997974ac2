-- ===== src/Node/Reading.antt =====
-- The reading side of a connection in crates/qup-test-node/src/main.rs. The two buffers are written
-- before they are read, and are left out.
pub mod Task
use qup.Prelude.{
  ℕ, zero, suc, ◌+◌, ◌*◌, ◌^◌, ◌≤◌, ◌<◌, ◌≡◌, refl, sym, ap, ◌∙◌, inl, inr, Bool, true, false,
  Option, none, some, [], ◌∷◌, ◌++◌, append_assoc, Bytes, Result, ok, err, map_ok, map_err, length,
  length-append, if◌then◌else◌, arith, Result-cases,
}
use qup.Prelude.Exec.{Exec, continue, continue-ok, pure, raise, lift, ◌>>=◌}
use qup.Word.{AllBytes, from_be_bytes, to_be_bytes}
use qup.Word.BigEndian.{AllBytes-append, length-to_be_bytes}
use qup.Wire.Error.{client_to_node, FrameError, PayloadError}
use qup.Wire.Frame.{FrameView, parse_frame}
use qup.Wire.Reader.{byte_at}
use qup.Wire.Value.{ValueRef, str_tag}
use qup.Wire.Message.{decode_message}
use qup.Wire.Message.Types.{
  MessageRef, RequestRef, request, ordinary_response, compatibility_request, compatibility_response,
  error, changed,
}
use qup.Wire.Message.Encoding.{payload_of, IsWireMessage}
use qup.Wire.Cursor.Reads.{bytes16}
use qup.Wire.Message.Decoding.Sound.{decode-Fits}
use qup.Client.Encode.{build_frame}
use qup.Client.Encode.Frames.{Rebuilds, build_frame-assemble, parse_frame-Rebuilds}
use qup.Client.Session.{ByteStream}
use qup.Client.Session.Receive.{build_frame-AllBytes}
use qup.Node.Frames.{Panic}
use qup.Node.State.Valid.{IsHeld, IsHeldValue}
use qup.Node.Dispatch.{Node, dispatch_message}
use qup.Node.Dispatch.Safe.{Safe, Safely, returned}
use qup.Node.Dispatch.Steps.{IsReceived, dispatch_message-Safely}

-- The decoder and the parser, with their errors dropped.
abbrev pub some_message : Result MessageRef PayloadError → Result (Option MessageRef) (Unit {0})
some_message (ok m) = ok (some m)
some_message (err e) = err tt

abbrev pub message_of : Result FrameView FrameError → Result (Option MessageRef) (Unit {0})
message_of (ok view) = some_message (decode_message view)
message_of (err e) = err tt

-- How the loop of `read_frames` stands: it has ended, its task has panicked, or it has read as
-- many messages as the fuel allows.
pub data Loop : Type 0 where
  ended running : Loop
  panicked : Panic → Loop

module _ {S E : Type 0} (stream : ByteStream S E) (is_unexpected_eof : E → Bool) where
  abbrev Reads : Type 0 → Type 0
  Reads A = Exec S (Unit {0}) A

  -- A read whose failure is an error.
  abbrev read_or_fail : ℕ → Reads Bytes
  read_or_fail n s = let (bytes, s') = stream.read_exact n s in (map_err (λ e. tt) bytes, s')

  unfoldable pub read_checksum : Bytes → Bytes → Reads (Option MessageRef)
  read_checksum header payload = do
    checksum ← read_or_fail 1
    lift (message_of (parse_frame client_to_node (header ++ (payload ++ checksum))))

  unfoldable pub read_payload : Bytes → Reads (Option MessageRef)
  unfolding read_checksum
  read_payload header = do
    payload ← read_or_fail (from_be_bytes (byte_at header 1 ∷ byte_at header 2 ∷ []))
    read_checksum header payload

  unfoldable pub after_header : Result Bytes E × S → Result (Option MessageRef) (Unit {0}) × S
  after_header (ok header, s) = read_payload header s
  after_header (err e, s) = if is_unexpected_eof e then (ok none, s) else (err tt, s)

  -- `ok none` is the end of the stream before a frame.
  unfoldable pub read_next_message : Reads (Option MessageRef)
  unfolding after_header read_payload read_checksum
  read_next_message s = after_header (stream.read_exact 3 s)

  pub record Reading : Type 0 where
    pub source : S
    pub node : Node

  unfoldable pub on_dispatch :
      (Reading → Loop × Reading) → S → Result Bool Panic × Node → Loop × Reading
  on_dispatch again s (ok true, node) = again (record { source = s; node = node })
  on_dispatch again s (ok false, node) = (ended, record { source = s; node = node })
  on_dispatch again s (err p, node) = (panicked p, record { source = s; node = node })

  unfoldable pub on_read :
      (Reading → Loop × Reading)
      → ℕ
      → Node
      → Result (Option MessageRef) (Unit {0}) × S
      → Loop × Reading
  unfolding on_dispatch
  on_read again id node (ok (some m), s) = on_dispatch again s (dispatch_message id m node)
  on_read again id node (ok none, s) = (ended, record { source = s; node = node })
  on_read again id node (err _, s) = (ended, record { source = s; node = node })

  -- `fuel` bounds the messages that are read.
  unfoldable pub read_frames : ℕ → ℕ → Reading → Loop × Reading
  unfolding on_read read_next_message
  read_frames zero id reading = (running, reading)
  read_frames (suc fuel) id reading =
      on_read (read_frames fuel id) id reading.node (read_next_message reading.source)

-- The strings of a request that was decoded from a frame fit the frame.
write-IsReceived :
    (keyref : ℕ) (value : ValueRef)
    → IsWireMessage (request (RequestRef.write keyref value))
    → length (payload_of (request (RequestRef.write keyref value))) < 2 ^ 16
    → IsHeldValue value
write-IsReceived keyref (ValueRef.bool value) wire lt = tt
write-IsReceived keyref (ValueRef.i64 value) wire lt = wire.1
write-IsReceived keyref (ValueRef.str value) wire lt = record {
  short = omega (
    arith,
    lt,
    length-append (to_be_bytes 2 keyref) (str_tag ∷ bytes16 value),
    length-append (to_be_bytes 2 (length value)) value,
    length-to_be_bytes 2 keyref,
    length-to_be_bytes 2 (length value),
  );
  no_nul = wire.1.no_nul;
  utf8 = wire.1.utf8;
}

wire-IsReceived : (m : MessageRef) → IsWireMessage m → length (payload_of m) < 2 ^ 16 → IsReceived m
wire-IsReceived (request (RequestRef.write keyref value)) wire lt =
    write-IsReceived keyref value wire lt
wire-IsReceived (request RequestRef.ping) wire lt = tt
wire-IsReceived (request RequestRef.identify) wire lt = tt
wire-IsReceived (request RequestRef.get_keytab_len) wire lt = tt
wire-IsReceived (request (RequestRef.get_key keyref)) wire lt = tt
wire-IsReceived (request (RequestRef.get keyref)) wire lt = tt
wire-IsReceived (request (RequestRef.observe keyref)) wire lt = tt
wire-IsReceived (request (RequestRef.unobserve keyref)) wire lt = tt
wire-IsReceived (ordinary_response r) wire lt = tt
wire-IsReceived (compatibility_response c) wire lt = tt
wire-IsReceived compatibility_request wire lt = tt
wire-IsReceived (error e) wire lt = tt
wire-IsReceived (changed k) wire lt = tt

view-IsReceived :
    (frame : Bytes) (view : FrameView) (m : MessageRef)
    → AllBytes frame
    → parse_frame client_to_node frame ≡ ok view
    → decode_message view ≡ ok m
    → IsReceived m
unfolding decode_message
view-IsReceived frame view m all parsed done =
    let built = (parse_frame-Rebuilds client_to_node frame view all parsed).built in
    let ok_payload = build_frame-AllBytes view.header.opcode view.payload frame built all in
    let fits = decode-Fits view.header.opcode view.payload m ok_payload done in
    let (frame_is, lt) = build_frame-assemble view.header.opcode view.payload built in
    wire-IsReceived m fits.carried (rw fits.payload_is at lt)

pub message_of-IsReceived :
    (frame : Bytes) (m : MessageRef) (r : Result FrameView FrameError)
    → AllBytes frame
    → parse_frame client_to_node frame ≡ r
    → message_of r ≡ ok (some m)
    → IsReceived m
message_of-IsReceived frame m (err e) all parsed done = cc
message_of-IsReceived frame m (ok view) all parsed done =
    some_message-IsReceived (decode_message view) refl done
  where
    some_message-IsReceived :
        (d : Result MessageRef PayloadError)
        → decode_message view ≡ d
        → some_message d ≡ ok (some m)
        → IsReceived m
    some_message-IsReceived (err e) is h = cc
    some_message-IsReceived (ok n) is h =
        let same : n ≡ m = ground arith in rw same at (view-IsReceived frame view n all parsed is)
