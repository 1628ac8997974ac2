-- ===== src/Client/Session/Requests.antt =====
-- The request methods of `Client`: the node is sent the request that was meant, and the answer is
-- what a frame of the node carries.
use qup.Prelude.{
  ℕ, ◌≡◌, refl, ap, ◌∙◌, inl, inr, ◌++◌, Bytes, Result, ok, err, map_err, Result-cases, arith,
}
use qup.Prelude.Exec.{continue, continue-ok}
use qup.Word.{to_be_bytes}
use qup.Wire.Codes
use qup.Wire.Error.{Opcode, client_to_node}
use qup.Wire.Opcode.{validate}
use qup.Wire.Frame.{parse_frame}
use qup.Wire.Message.{decode}
use qup.Wire.Message.Types.{MessageRef, RequestRef, request}
use qup.Wire.Message.Encoding.{opcode_of, payload_of, IsWireMessage, IsU16}
use qup.Wire.Message.Decoding.{decode-payload_of}
use qup.Client.Encode.{Value, write_payload}
use qup.Client.Encode.Frames.{view_of, parse_frame-build_frame}
use qup.Client.Encode.Values.{IsValue, borrowed, push_value-ok}
use qup.Client.Message.{Message, ClientError}
use qup.Client.Owned.{as_written}
use qup.Client.Session.{
  ByteStream, FrameDirection, Client, Halt, failed, read_request_response, send_frame, ask, write,
}
use qup.Client.Session.Receive.{Carries}
use qup.Client.Session.Exchange.{
  Notifications, Heard, read_request_response-Heard, Sent, send_frame-Sent,
}

-- The request that `write` means.
abbrev pub asked_write : ℕ → Value → MessageRef
asked_write keyref value = request (RequestRef.write keyref (borrowed value))

module _ {S E T : Type 0} (io_stream : ByteStream S E)
    (on_frame : FrameDirection → Bytes → T → T) where
  -- A request went out in one frame, which a node parses and decodes as `asked`; then frames of
  -- notifications came in, and one frame that carries the answer.
  pub record Exchange (client : Client S T) (asked : MessageRef) (answer : Message)
      (client' : Client S T) : Type 0 where
    pub request : Bytes
    pub parsed :
        parse_frame client_to_node request ≡ ok (view_of (opcode_of asked) (payload_of asked))
    pub decoded : decode (opcode_of asked) (payload_of asked) ≡ ok asked
    pub sent : io_stream.sent client'.stream ≡ io_stream.sent client.stream ++ request
    pub skipped : Bytes
    pub notifications : Notifications E skipped
    pub response : Bytes
    pub carries : Carries E response answer
    pub taken :
        io_stream.taken client'.stream ≡ io_stream.taken client.stream ++ (skipped ++ response)

  Sent-Exchange :
      (asked : MessageRef) (answer : Message) (client client1 client' : Client S T)
      → IsWireMessage asked
      → validate (opcode_of asked) client_to_node ≡ ok tt
      → Sent io_stream on_frame (opcode_of asked) (payload_of asked) client client1
      → Heard io_stream on_frame client1 answer client'
      → Exchange client asked answer client'
  Sent-Exchange asked answer client client1 client' wire legal out back = record {
    request = out.request;
    parsed =
        parse_frame-build_frame client_to_node (opcode_of asked) (payload_of asked) out.request
          out.built legal;
    decoded = decode-payload_of asked wire;
    sent = back.sent ∙ out.sent;
    skipped = back.skipped;
    notifications = back.notifications;
    response = back.response;
    carries = back.carries;
    taken = back.taken ∙ ap (λ t. t ++ (back.skipped ++ back.response)) out.taken;
  }

  module _ {A : Type 0} where
    -- What `ask` makes of the end of `send_frame`, and what follows it.
    abbrev lifted : Result A (ClientError E) × Client S T → Result A (Halt E) × Client S T
    lifted r = (map_err failed r.0, r.1)

    lifted-ok :
        (r : Result A (ClientError E) × Client S T) (a : A) (client' : Client S T)
        → lifted r ≡ (ok a, client')
        → r ≡ (ok a, client')
    lifted-ok (ok x, c) a client' h =
        let x_is : x ≡ a = ground arith in
        let c_is : c ≡ client' = ap (λ p. p.1) h in rw x_is (rw c_is refl)
    lifted-ok (err e, c) a client' h = cc

    abbrev reading :
        (Message → Result A (ClientError E)) → Message → Client S T → Result A (Halt E) × Client S T
    reading read m c = lifted (read m, c)

    abbrev waiting :
        ℕ
        → (Message → Result A (ClientError E))
        → Unit {0}
        → Client S T
        → Result A (Halt E) × Client S T
    waiting fuel read u c =
        continue (read_request_response io_stream on_frame fuel c) (reading read)

    answered :
        (fuel : ℕ) (asked : MessageRef) (read : Message → Result A (ClientError E))
        (client client1 client' : Client S T) (a : A)
        → IsWireMessage asked
        → validate (opcode_of asked) client_to_node ≡ ok tt
        → Sent io_stream on_frame (opcode_of asked) (payload_of asked) client client1
        → waiting fuel read tt client1 ≡ (ok a, client')
        → (answer : Message) × (read answer ≡ ok a) × Exchange client asked answer client'
    answered fuel asked read client client1 client' a wire legal out h =
        let (m, c2, back, h2) =
          continue-ok (read_request_response io_stream on_frame fuel client1) (reading read) h in
        let done = lifted-ok (read m, c2) a client' h2 in
        let c2_is : c2 ≡ client' = ap (λ p. p.1) done in
        (
          m,
          ap (λ p. p.0) done,
          Sent-Exchange asked m client client1 client' wire legal out
              (rw⁻¹ c2_is (read_request_response-Heard io_stream on_frame fuel client1 c2 m back)),
        )

  -- A request method that succeeded: the request that was meant went out, and the answer that it
  -- read its result from came in.
  pub ask-Exchange :
      {A : Type 0} (fuel : ℕ) (asked : MessageRef) (read : Message → Result A (ClientError E))
      (client client' : Client S T) (a : A)
      → IsWireMessage asked
      → validate (opcode_of asked) client_to_node ≡ ok tt
      → ask io_stream on_frame fuel (opcode_of asked) (payload_of asked) read client
        ≡ (ok a, client')
      → (answer : Message) × (read answer ≡ ok a) × Exchange client asked answer client'
  unfolding ask
  ask-Exchange fuel asked read client client' a wire legal h =
      let send = send_frame io_stream on_frame (opcode_of asked) (payload_of asked) client in
      let (u, client1, out, h1) = continue-ok (lifted send) (waiting fuel read) h in
      answered fuel asked read client client1 client' a wire legal
        (send_frame-Sent io_stream on_frame (opcode_of asked) (payload_of asked) client client1
          (lifted-ok send tt client1 out))
        h1

  as_written-ok :
      (asked : Opcode) (m : Message) (v : Value)
      → as_written {E = E} asked m ≡ ok v
      → m ≡ Message.written v
  unfolding as_written
  as_written-ok asked (Message.written w) v h = ground arith
  as_written-ok asked Message.ok v h = cc
  as_written-ok asked (Message.caps caps) v h = cc
  as_written-ok asked (Message.identified nodeid) v h = cc
  as_written-ok asked (Message.keytab_len count) v h = cc
  as_written-ok asked (Message.key keyflags name) v h = cc
  as_written-ok asked (Message.value w) v h = cc
  as_written-ok asked (Message.error code) v h = cc
  as_written-ok asked (Message.changed keyref) v h = cc

  write_legal : validate Codes.write client_to_node ≡ ok tt
  unfolding validate
  write_legal = refl

  write_answered :
      (fuel keyref : ℕ) (value v : Value) (client client' : Client S T)
      → IsWireMessage (asked_write keyref value)
      → ask io_stream on_frame fuel Codes.write
          (payload_of (asked_write keyref value))
          (as_written Codes.write)
          client
        ≡ (ok v, client')
      → Exchange client (asked_write keyref value) (Message.written v) client'
  write_answered fuel keyref value v client client' wire h =
      let (m, read, e) =
        ask-Exchange fuel (asked_write keyref value) (as_written Codes.write) client client' v wire
          write_legal h in
      rw (as_written-ok Codes.write m v read) at e

  -- A `write` of a 16-bit key reference that succeeded: the node was sent one frame, which it
  -- parses and decodes as a WRITE of that reference and value, and after notifications alone a frame
  -- came in that carries WRITTEN with the value that `write` returns.
  pub write-Exchange :
      (fuel keyref : ℕ) (value v : Value) (client client' : Client S T)
      → IsU16 keyref
      → IsValue value
      → write io_stream on_frame fuel keyref value client ≡ (ok v, client')
      → Exchange client (asked_write keyref value) (Message.written v) client'
  unfolding write write_payload
  write-Exchange fuel keyref value v client client' k is_value h =
      elim (Result-cases (write_payload keyref value)) [
        | inr (e, refused) ↦ let bad = rw refused at h in cc
        | inl (payload, encoded) ↦
            let (out, wire) = push_value-ok (to_be_bytes 2 keyref) value is_value encoded in
            write_answered fuel keyref value v client client' (k, wire)
              (rw out at (rw encoded at h))
      ]
