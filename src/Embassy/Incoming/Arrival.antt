-- ===== src/Embassy/Incoming/Arrival.antt =====
-- A request that the server returns, against the frame parser and the message decoder.
use qup.Prelude.{
  ℕ, ◌+◌, ◌*◌, ◌/◌, ◌%◌, ◌≡◌, ◌≢◌, refl, sym, ap, ◌∙◌, inl, inr, [], ◌∷◌, ◌++◌, append_assoc,
  append-nil, Bytes, Result, ok, err, length, ==_refl, arith, Result-cases,
}
use qup.Word.{AllBytes, from_be_bytes}
use qup.Wire.Error.{FrameError, client_to_node}
use qup.Wire.Opcode.{validate}
use qup.Wire.Checksum.{frame_sum}
use qup.Wire.Frame.{FrameView, parse_frame, new_view}
use qup.Wire.Frame.Layout.{assemble, parse_frame-judge}
use qup.Wire.Reader.{byte_at}
use qup.Wire.Message.{decode_message, decode}
use qup.Wire.Message.Types.{MessageRef}
use qup.Wire.Message.Encoding.{payload_of}
use qup.Wire.Message.Decoding.{decode-payload_of}
use qup.Client.Session.{ByteStream}
use qup.Embassy.Error.{ServerError}
use qup.Embassy.Sum.{new_sum, add_slice, add_chunks-frame_sum}
use qup.Embassy.Stream.{Request, add_slice-append}
use qup.Embassy.Incoming.{IncomingRequest, read_payload_of, read_body, after_read, read_request}
use qup.Embassy.Incoming.Requests.{Stands, Body, read_payload_of-Body}

three_bytes : (xs : Bytes) → length xs ≡ 3 → xs ≡ byte_at xs 0 ∷ byte_at xs 1 ∷ byte_at xs 2 ∷ []
three_bytes [] h = absurd (omega (arith, h))
three_bytes (a ∷ []) h = absurd (omega (arith, h))
three_bytes (a ∷ b ∷ []) h = absurd (omega (arith, h))
three_bytes (a ∷ b ∷ c ∷ []) h = refl
three_bytes (a ∷ b ∷ c ∷ d ∷ xs) h = absurd (omega (arith, h))

word_of : (hi lo : ℕ) → from_be_bytes (hi ∷ lo ∷ []) ≡ hi * 256 + lo
unfolding from_be_bytes
word_of hi lo = omega arith

module _ {S E : Type 0} (stream : ByteStream S E) (max_str : ℕ) where
  -- Exactly the bytes of one frame were taken and nothing was sent; the frame parser accepts the
  -- frame, the decoder gives its message, and the request stands for that message.
  pub record Arrives (incoming : IncomingRequest) (before after : S) : Type 0 where
    pub frame : Bytes
    pub taken : stream.taken after ≡ stream.taken before ++ frame
    pub sent : stream.sent after ≡ stream.sent before
    pub view : FrameView
    pub parsed : parse_frame client_to_node frame ≡ ok view
    pub message : MessageRef
    pub decoded : decode_message view ≡ ok message
    pub stands : Stands stream max_str incoming message

  sum_of_frame :
      (opcode hi lo checksum : ℕ) (body : Bytes)
      → AllBytes (hi ∷ lo ∷ [])
      → add_slice (new_sum opcode (hi * 256 + lo)) (body ++ checksum ∷ []) ≡ 0
      → frame_sum (assemble opcode hi lo body checksum) ≡ 0
  unfolding add_slice
  sum_of_frame opcode hi lo checksum body small zero_sum =
      let whole = add_chunks-frame_sum opcode (hi * 256 + lo) checksum (body ∷ []) in
      let hi_is : (hi * 256 + lo) / 256 % 256 ≡ hi = omega arith in
      let lo_is : (hi * 256 + lo) % 256 ≡ lo = omega arith in
      sym (rw (append-nil body) at (rw (hi_is, lo_is) at whole))
      ∙ sym (add_slice-append stream (new_sum opcode (hi * 256 + lo)) body (checksum ∷ []))
      ∙ zero_sum

  accepted :
      (opcode hi lo checksum : ℕ) (body : Bytes)
      → length body ≡ hi * 256 + lo
      → frame_sum (assemble opcode hi lo body checksum) ≡ 0
      → validate opcode client_to_node ≡ ok tt
      → parse_frame client_to_node (assemble opcode hi lo body checksum)
        ≡ ok (new_view opcode (hi * 256 + lo) checksum body)
  accepted opcode hi lo checksum body counted zero_sum legal =
      parse_frame-judge client_to_node opcode hi lo body checksum
      ∙ rw (counted, zero_sum) (rw (==_refl (hi * 256 + lo)) (rw legal refl))

  Body-Arrives :
      (opcode hi lo : ℕ) (incoming : IncomingRequest) (start s : S) (after : Request S)
      → AllBytes (hi ∷ lo ∷ [])
      → stream.taken s ≡ stream.taken start ++ (opcode ∷ hi ∷ lo ∷ [])
      → stream.sent s ≡ stream.sent start
      → validate opcode client_to_node ≡ ok tt
      → Body stream max_str opcode
          (hi * 256 + lo)
          incoming
          (record { source = s; sum = new_sum opcode (hi * 256 + lo) })
          after
      → Arrives incoming start after.source
  unfolding decode_message
  Body-Arrives opcode hi lo incoming start s after small taken sent legal found =
      let body = payload_of found.message in
      let done = found.finished in
      let zero_sum =
        sum_of_frame opcode hi lo done.checksum body small (sym done.got.summed ∙ done.zero_sum) in
      record {
        frame = assemble opcode hi lo body done.checksum;
        taken =
            done.got.taken
            ∙ ap (λ t. t ++ (body ++ done.checksum ∷ [])) taken
            ∙ append_assoc (stream.taken start) (opcode ∷ hi ∷ lo ∷ [])
                (body ++ done.checksum ∷ []);
        sent = done.got.sent ∙ sent;
        view = new_view opcode (hi * 256 + lo) done.checksum body;
        parsed = accepted opcode hi lo done.checksum body found.counted zero_sum legal;
        message = found.message;
        decoded =
            ap (λ o. decode o body) (sym found.opcode_is)
            ∙ decode-payload_of found.message found.carried;
        stands = found.stands;
      }

  abbrev on_source :
      Result IncomingRequest (ServerError E) × Request S
      → Result IncomingRequest (ServerError E) × S
  on_source x = (x.0, x.1.source)

  ended :
      (x : Result IncomingRequest (ServerError E) × Request S) (incoming : IncomingRequest) (s : S)
      → on_source x ≡ (ok incoming, s)
      → (x ≡ (ok incoming, x.1)) × (x.1.source ≡ s)
  ended (ok r, after) incoming s h =
      let same : r ≡ incoming = ground arith in (ap (λ i. (ok i, after)) same, ap (λ p. p.1) h)
  ended (err e, after) incoming s h = cc

  read_body_legal :
      (header : Bytes) (s : S)
      → validate (byte_at header 0) client_to_node ≡ ok tt
      → let len = from_be_bytes (byte_at header 1 ∷ byte_at header 2 ∷ []) in
        read_body stream max_str header s
        ≡ on_source (
            read_payload_of stream max_str
              (byte_at header 0)
              len
              (record { source = s; sum = new_sum (byte_at header 0) len }))
  unfolding read_body
  read_body_legal header s legal = rw (legal, read_body) refl

  read_body_illegal :
      (header : Bytes) (s s' : S) (e : FrameError) (incoming : IncomingRequest)
      → validate (byte_at header 0) client_to_node ≡ err e
      → read_body stream max_str header s ≢ (ok incoming, s')
  unfolding read_body
  read_body_illegal header s s' e incoming illegal h =
      let refused = rw (illegal, read_body) at h in cc

  read_body-Arrives :
      (header : Bytes) (incoming : IncomingRequest) (start s s' : S)
      → length header ≡ 3
      → AllBytes header
      → stream.taken s ≡ stream.taken start ++ header
      → stream.sent s ≡ stream.sent start
      → read_body stream max_str header s ≡ (ok incoming, s')
      → Arrives incoming start s'
  read_body-Arrives header incoming start s s' three all taken sent h =
      let opcode = byte_at header 0 in
      let hi = byte_at header 1 in
      let lo = byte_at header 2 in
      elim (Result-cases (validate opcode client_to_node)) [
        | inr (e, illegal) ↦ absurd (read_body_illegal header s s' e incoming illegal h)
        | inl (tt, legal) ↦
            let word = word_of hi lo in
            let parts = three_bytes header three in
            let before : Request S = record { source = s; sum = new_sum opcode (hi * 256 + lo) } in
            let out = read_payload_of stream max_str opcode (hi * 256 + lo) before in
            let (run, last) =
              ended out incoming s' (rw word at (sym (read_body_legal header s legal) ∙ h)) in
            let bytes = rw parts at all in
            rw last at (
              Body-Arrives opcode hi lo incoming start s out.1 bytes.1 (rw parts at taken) sent
                legal
                (read_payload_of-Body stream max_str opcode (hi * 256 + lo) incoming before out.1
                  run))
      ]

  -- A request that `read_request` returns was one whole frame, of which nothing is left on the
  -- stream and to which nothing was added: `parse_frame` accepts the frame, the message decoder
  -- gives a message, and the request stands for it. A string that does not fit the server's scratch
  -- is reported as oversized exactly when it is longer.
  pub read_request-Arrives :
      (incoming : IncomingRequest) (s s' : S)
      → read_request stream max_str s ≡ (ok incoming, s')
      → Arrives incoming s s'
  unfolding read_request
  read_request-Arrives incoming s s' h = go (stream.read_exact 3 s) refl h
    where
      go :
          (x : Result Bytes E × S)
          → stream.read_exact 3 s ≡ x
          → after_read stream max_str x ≡ (ok incoming, s')
          → Arrives incoming s s'
      go (err e, t) is h = cc
      go (ok header, t) is h =
          let (three, all, taken, sent) = stream.fills 3 s t header is in
          read_body-Arrives header incoming s t s' three all taken sent h
