-- ===== src/Client/Session/Stream.antt =====
-- What the calls of `Client` move over its stream.
use qup.Prelude.{
  ℕ, ◌≡◌, refl, sym, ap, ◌∙◌, [], ◌∷◌, ◌++◌, append_assoc, append-nil, Bytes, Result, ok, err,
  length, map_err,
}
use qup.Prelude.Exec.{continue, ◌>>=◌}
use qup.Word.{AllBytes, from_be_bytes}
use qup.Word.BigEndian.{AllBytes-append}
use qup.Wire.Reader.{byte_at}
use qup.Wire.Reader.Whole.{reads-IsWholeFrame}
use qup.Wire.Frame.Layout.{IsWholeFrame}
use qup.Client.Message.{Message, ClientError, IoError, io}
use qup.Client.Session.{
  ByteStream, FrameDirection, Client, receive, traced, accept_frame, next_message,
}

module _ {S E T : Type 0} (io_stream : ByteStream S E)
    (on_frame : FrameDirection → Bytes → T → T) where
  abbrev stream_error : E → ClientError E
  stream_error e = io (IoError.stream e)

  -- How `next_message` ends.
  pub data Receives (client : Client S T) (out : Result Message (ClientError E))
      (client' : Client S T) : Type 0 where
    -- A read failed, and its error is passed on; no frame was traced.
    stopped :
        (n : ℕ) (s : S) (e : E)
        → io_stream.read_exact n s ≡ (err e, client'.stream)
        → client'.frame_trace ≡ client.frame_trace
        → out ≡ err (stream_error e)
        → Receives client out client'
    -- One whole frame was taken, and nothing else; it was traced, and it decides the answer.
    framed :
        (frame : Bytes)
        → IsWholeFrame frame
        → AllBytes frame
        → io_stream.taken client'.stream ≡ io_stream.taken client.stream ++ frame
        → io_stream.sent client'.stream ≡ io_stream.sent client.stream
        → client'.frame_trace ≡ traced io_stream on_frame FrameDirection.rx frame client.frame_trace
        → out ≡ accept_frame frame
        → Receives client out client'

  module _ (client : Client S T) where
    abbrev Ends : Result Message (ClientError E) × Client S T → Type 0
    Ends x = Receives client x.0 x.1

    -- The bytes read since the start of the call.
    abbrev Read : Bytes → S → Type 0
    Read bytes s =
        AllBytes bytes
        × (io_stream.taken s ≡ io_stream.taken client.stream ++ bytes)
        × (io_stream.sent s ≡ io_stream.sent client.stream)

    read_more :
        (bytes more : Bytes) (n : ℕ) (s s' : S)
        → Read bytes s
        → io_stream.read_exact n s ≡ (ok more, s')
        → (length more ≡ n) × Read (bytes ++ more) s'
    read_more bytes more n s s' (all, taken, sent) h =
        let (len, all', taken', sent') = io_stream.fills n s s' more h in
        (
          len,
          (
            AllBytes-append bytes more all all',
            taken'
                ∙ ap (λ t. t ++ more) taken
                ∙ append_assoc (io_stream.taken client.stream) bytes more,
            sent' ∙ sent,
          ),
        )

    abbrev last_part :
        Bytes → Bytes → Bytes → Client S T → Result Message (ClientError E) × Client S T
    last_part header payload checksum c = (
      accept_frame (header ++ (payload ++ checksum)),
      record c {
        frame_trace =
            traced io_stream on_frame FrameDirection.rx (header ++ (payload ++ checksum))
              c.frame_trace;
      },
    )

    abbrev payload_part : Bytes → Bytes → Client S T → Result Message (ClientError E) × Client S T
    payload_part header payload = receive io_stream on_frame 1 >>= last_part header payload

    abbrev header_part : Bytes → Client S T → Result Message (ClientError E) × Client S T
    header_part header =
        receive io_stream on_frame (from_be_bytes (byte_at header 1 ∷ byte_at header 2 ∷ []))
        >>= payload_part header

    abbrev on : S → Client S T
    on s = record client { stream = s }

    after_checksum :
        (header payload : Bytes) (s : S) (x : Result Bytes E × S)
        → length header ≡ 3
        → length payload ≡ from_be_bytes (byte_at header 1 ∷ byte_at header 2 ∷ [])
        → Read (header ++ payload) s
        → io_stream.read_exact 1 s ≡ x
        → Ends (continue (map_err stream_error x.0, on x.1) (last_part header payload))
    after_checksum header payload s (err e, s') three announced r h = stopped 1 s e h refl refl
    after_checksum header payload s (ok checksum, s') three announced r h =
        let (one, (all, taken, sent)) = read_more (header ++ payload) checksum 1 s s' r h in
        let whole = append_assoc header payload checksum in
        framed (header ++ (payload ++ checksum))
          (reads-IsWholeFrame header payload checksum three announced one) (rw whole at all)
          (taken ∙ ap (λ t. io_stream.taken client.stream ++ t) whole) sent refl refl

    after_payload :
        (header : Bytes) (n : ℕ) (s : S) (x : Result Bytes E × S)
        → length header ≡ 3
        → n ≡ from_be_bytes (byte_at header 1 ∷ byte_at header 2 ∷ [])
        → Read header s
        → io_stream.read_exact n s ≡ x
        → Ends (continue (map_err stream_error x.0, on x.1) (payload_part header))
    after_payload header n s (err e, s') three is r h = stopped n s e h refl refl
    after_payload header n s (ok payload, s') three is r h =
        let (len, read) = read_more header payload n s s' r h in
        after_checksum header payload s' (io_stream.read_exact 1 s') three (len ∙ is) read refl

    after_header :
        (x : Result Bytes E × S)
        → io_stream.read_exact 3 client.stream ≡ x
        → Ends (continue (map_err stream_error x.0, on x.1) header_part)
    after_header (err e, s') h = stopped 3 client.stream e h refl refl
    after_header (ok header, s') h =
        let (three, read) =
          read_more [] header 3 client.stream s'
            (tt, sym (append-nil (io_stream.taken client.stream)), refl) h in
        after_payload header (from_be_bytes (byte_at header 1 ∷ byte_at header 2 ∷ [])) s'
          (io_stream.read_exact (from_be_bytes (byte_at header 1 ∷ byte_at header 2 ∷ [])) s') three
          refl read refl

  -- `next_message` ends with an error of the stream, passed on, or it takes exactly the bytes of
  -- one whole frame, sends nothing, traces the frame, and answers with what the frame's bytes say.
  pub next_message-Receives :
      (client : Client S T)
      → Receives client
          (next_message io_stream on_frame client).0
          (next_message io_stream on_frame client).1
  unfolding next_message
  next_message-Receives client = after_header client (io_stream.read_exact 3 client.stream) refl
