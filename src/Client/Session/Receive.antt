-- ===== src/Client/Session/Receive.antt =====
-- What `next_message` takes from the stream, and what it makes of it.
use qup.Prelude.{◌≡◌, ◌≢◌, refl, [], ◌∷◌, ◌++◌, Bytes, Result, ok, err}
use qup.Word.{AllBytes}
use qup.Wire.Error.{Opcode, FrameError, PayloadError, node_to_client}
use qup.Wire.Opcode.{validate}
use qup.Wire.Frame.{FrameView, parse_frame}
use qup.Wire.Message.{decode_message, decode}
use qup.Wire.Message.Types.{
  MessageRef, RequestRef, request, ordinary_response, compatibility_request, compatibility_response,
  error, changed,
}
use qup.Wire.Message.Encoding.{request_opcode, opcode_of, payload_of, IsWireMessage}
use qup.Wire.Message.Decoding.Sound.{Fits, decode-Fits}
use qup.Client.Encode.{build_frame}
use qup.Client.Encode.Frames.{build_frame-assemble, Rebuilds, parse_frame-Rebuilds}
use qup.Client.Message.{
  Message, ClientError, protocol, frame_validation_failed, payload_validation_failed,
}
use qup.Client.Owned.{owned_message}
use qup.Client.Owned.Same.{Same, same_caps, same_error, same_changed, owned_ordinary_message-Same}
use qup.Client.Session.{accept_message, accept_view, accept_frame}

AllBytes-left : (xs ys : Bytes) → AllBytes (xs ++ ys) → AllBytes xs
AllBytes-left [] ys h = tt
AllBytes-left (x ∷ xs) ys h = (h.0, AllBytes-left xs ys h.1)

pub build_frame-AllBytes :
    (opcode : Opcode) (payload frame : Bytes)
    → build_frame opcode payload ≡ ok frame
    → AllBytes frame
    → AllBytes payload
build_frame-AllBytes opcode payload frame built ok_f =
    let (frame_is, lt) = build_frame-assemble opcode payload built in
    let parts = rw frame_is at ok_f in AllBytes-left payload _ parts.1.1.1

-- A message that only a client sends has no opcode that a node may send.
pub request_opcode-validate : (r : RequestRef) → validate (request_opcode r) node_to_client ≢ ok tt
unfolding validate
request_opcode-validate RequestRef.ping h = cc
request_opcode-validate RequestRef.identify h = cc
request_opcode-validate RequestRef.get_keytab_len h = cc
request_opcode-validate (RequestRef.get_key keyref) h = cc
request_opcode-validate (RequestRef.get keyref) h = cc
request_opcode-validate (RequestRef.write keyref value) h = cc
request_opcode-validate (RequestRef.observe keyref) h = cc
request_opcode-validate (RequestRef.unobserve keyref) h = cc

opcode_of-validate :
    {E : Type 0} (message : MessageRef)
    → validate (opcode_of message) node_to_client ≡ ok tt
    → (m : Message) × (owned_message {E = E} message ≡ ok m) × Same message m
unfolding owned_message validate
opcode_of-validate (request r) h = absurd (request_opcode-validate r h)
opcode_of-validate compatibility_request h = cc
opcode_of-validate (ordinary_response r) h = (_, refl, owned_ordinary_message-Same r)
opcode_of-validate (compatibility_response caps) h = (_, refl, same_caps caps)
opcode_of-validate (error e) h = (_, refl, same_error e)
opcode_of-validate (changed keyref) h = (_, refl, same_changed keyref)

module _ (frame : Bytes) (view : FrameView) (ok_f : AllBytes frame)
    (parsed : parse_frame node_to_client frame ≡ ok view) where
  rebuilt : Rebuilds node_to_client frame view
  rebuilt = parse_frame-Rebuilds node_to_client frame view ok_f parsed

  ok_payload : AllBytes view.payload
  ok_payload = build_frame-AllBytes view.header.opcode view.payload frame rebuilt.built ok_f

-- A frame is the wire form of a message within the wire limits, which a node may send, and `m` is
-- that message with owned strings.
pub record Carries (E : Type 0) (frame : Bytes) (m : Message) : Type 0 where
  pub message : MessageRef
  pub built : build_frame (opcode_of message) (payload_of message) ≡ ok frame
  pub legal : validate (opcode_of message) node_to_client ≡ ok tt
  pub carried : IsWireMessage message
  pub owned : owned_message {E = E} message ≡ ok m
  pub same : Same message m

-- What becomes of a frame: a fault of the frame, a fault of its payload, or its message.
pub data Verdict {E : Type 0} (frame : Bytes) (out : Result Message (ClientError E)) : Type 0 where
  bad_frame :
      (e : FrameError)
      → parse_frame node_to_client frame ≡ err e
      → out ≡ err (protocol (frame_validation_failed e))
      → Verdict frame out
  bad_payload :
      (view : FrameView) (e : PayloadError)
      → parse_frame node_to_client frame ≡ ok view
      → decode view.header.opcode view.payload ≡ err e
      → out ≡ err (protocol (payload_validation_failed e))
      → Verdict frame out
  accepted : (m : Message) → Carries E frame m → out ≡ ok m → Verdict frame out

module _ {E : Type 0} (frame : Bytes) (ok_f : AllBytes frame) where
  message-Verdict :
      (view : FrameView) (message : MessageRef)
      → parse_frame node_to_client frame ≡ ok view
      → Fits view.header.opcode view.payload message
      → Verdict frame (owned_message {E = E} message)
  message-Verdict view message parsed fits =
      let re = rebuilt frame view ok_f parsed in
      let legal = rw fits.opcode_is at re.legal in
      let (m, owned, same) = opcode_of-validate {E = E} message legal in
      accepted m
        (record {
          message = message;
          built = rw⁻¹ fits.opcode_is (rw⁻¹ fits.payload_is re.built);
          legal = legal;
          carried = fits.carried;
          owned = owned;
          same = same;
        })
        owned

  accept_message-Verdict :
      (view : FrameView) (r : Result MessageRef PayloadError)
      → parse_frame node_to_client frame ≡ ok view
      → decode view.header.opcode view.payload ≡ r
      → Verdict {E = E} frame (accept_message r)
  unfolding accept_message
  accept_message-Verdict view (err e) parsed decoded = bad_payload view e parsed decoded refl
  accept_message-Verdict view (ok message) parsed decoded = message-Verdict view message parsed (
      decode-Fits view.header.opcode view.payload message (ok_payload frame view ok_f parsed)
        decoded)

  accept_view-Verdict :
      (r : Result FrameView FrameError)
      → parse_frame node_to_client frame ≡ r
      → Verdict {E = E} frame (accept_view r)
  unfolding accept_view decode_message
  accept_view-Verdict (err e) parsed = bad_frame e parsed refl
  accept_view-Verdict (ok view) parsed =
      accept_message-Verdict view (decode view.header.opcode view.payload) parsed refl

-- The bytes of a frame are refused for a fault of the frame or of its payload, each with its
-- reason, or they are the wire form of a message that a node may send and the answer is that
-- message; a message that only a client sends is never met.
pub accept_frame-Verdict :
    {E : Type 0} (frame : Bytes) → AllBytes frame → Verdict {E = E} frame (accept_frame frame)
unfolding accept_frame
accept_frame-Verdict frame ok_f =
    accept_view-Verdict frame ok_f (parse_frame node_to_client frame) refl
