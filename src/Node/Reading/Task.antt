-- ===== src/Node/Reading/Task.antt =====
-- What the reading task of a connection takes from its stream, and what it does to the node.
use qup.Prelude.{
  ℕ, zero, suc, ◌≡◌, refl, sym, ap, ◌∙◌, Bool, true, false, Option, none, some, [], ◌∷◌, ◌++◌,
  append_assoc, append-nil, Bytes, Result, ok, err, length, map_err, if◌then◌else◌,
}
use qup.Prelude.Exec.{continue, lift}
use qup.Word.{AllBytes, from_be_bytes}
use qup.Word.BigEndian.{AllBytes-append}
use qup.Wire.Error.{client_to_node}
use qup.Wire.Frame.{parse_frame}
use qup.Wire.Reader.{byte_at}
use qup.Wire.Reader.Whole.{reads-IsWholeFrame}
use qup.Wire.Frame.Layout.{IsWholeFrame}
use qup.Wire.Message.Types.{MessageRef}
use qup.Client.Session.{ByteStream}
use qup.Node.Frames.{Panic}
use qup.Node.Dispatch.{Node, dispatch_message}
use qup.Node.Dispatch.Safe.{Safe, Safely, returned}
use qup.Node.Dispatch.Steps.{IsReceived, dispatch_message-Safely}
use qup.Node.Reading.{
  message_of, read_next_message, after_header, read_payload, read_checksum, Reading, Loop, ended,
  running, panicked, on_dispatch, on_read, read_frames, message_of-IsReceived,
}

module _ {S E : Type 0} (stream : ByteStream S E) (is_unexpected_eof : E → Bool) where
  -- How `read_next_message` ends.
  pub data Takes (s : S) (out : Result (Option MessageRef) (Unit {0})) (s' : S) : Type 0 where
    -- The stream had ended before the frame.
    finished :
        (e : E)
        → stream.read_exact 3 s ≡ (err e, s')
        → is_unexpected_eof e ≡ true
        → out ≡ ok none
        → Takes s out s'
    -- A read failed.
    broken :
        (n : ℕ) (before : S) (e : E)
        → stream.read_exact n before ≡ (err e, s')
        → out ≡ err tt
        → Takes s out s'
    -- One whole frame was taken, and nothing else, and it decides the answer.
    took :
        (frame : Bytes)
        → IsWholeFrame frame
        → AllBytes frame
        → stream.taken s' ≡ stream.taken s ++ frame
        → stream.sent s' ≡ stream.sent s
        → out ≡ message_of (parse_frame client_to_node frame)
        → Takes s out s'

  module _ (start : S) where
    abbrev Ends : Result (Option MessageRef) (Unit {0}) × S → Type 0
    Ends x = Takes start x.0 x.1

    -- The bytes read since the start of the call.
    abbrev Read : Bytes → S → Type 0
    Read bytes s =
        AllBytes bytes
        × (stream.taken s ≡ stream.taken start ++ bytes)
        × (stream.sent s ≡ stream.sent start)

    read_more :
        (bytes more : Bytes) (n : ℕ) (s s' : S)
        → Read bytes s
        → stream.read_exact n s ≡ (ok more, s')
        → (length more ≡ n) × Read (bytes ++ more) s'
    read_more bytes more n s s' (all, taken, sent) h =
        let (len, all', taken', sent') = stream.fills n s s' more h in
        (
          len,
          (
            AllBytes-append bytes more all all',
            taken' ∙ ap (λ t. t ++ more) taken ∙ append_assoc (stream.taken start) bytes more,
            sent' ∙ sent,
          ),
        )

    after_checksum :
        (header payload : Bytes) (s : S) (x : Result Bytes E × S)
        → length header ≡ 3
        → length payload ≡ from_be_bytes (byte_at header 1 ∷ byte_at header 2 ∷ [])
        → Read (header ++ payload) s
        → stream.read_exact 1 s ≡ x
        → Ends (
            continue
              (map_err (λ e. tt) x.0, x.1)
              (λ checksum.
                lift (message_of (parse_frame client_to_node (header ++ (payload ++ checksum))))))
    after_checksum header payload s (err e, s') three announced r h = broken 1 s e h refl
    after_checksum header payload s (ok checksum, s') three announced r h =
        let (one, (all, taken, sent)) = read_more (header ++ payload) checksum 1 s s' r h in
        let whole = append_assoc header payload checksum in
        took (header ++ (payload ++ checksum))
          (reads-IsWholeFrame header payload checksum three announced one) (rw whole at all)
          (taken ∙ ap (λ t. stream.taken start ++ t) whole) sent refl

    after_payload :
        (header : Bytes) (n : ℕ) (s : S) (x : Result Bytes E × S)
        → length header ≡ 3
        → n ≡ from_be_bytes (byte_at header 1 ∷ byte_at header 2 ∷ [])
        → Read header s
        → stream.read_exact n s ≡ x
        → Ends
            (continue (map_err (λ e. tt) x.0, x.1) (read_checksum stream is_unexpected_eof header))
    unfolding read_checksum
    after_payload header n s (err e, s') three is r h = broken n s e h refl
    after_payload header n s (ok payload, s') three is r h =
        let (len, read) = read_more header payload n s s' r h in
        after_checksum header payload s' (stream.read_exact 1 s') three (len ∙ is) read refl

    header_ends :
        (x : Result Bytes E × S)
        → stream.read_exact 3 start ≡ x
        → Ends (after_header stream is_unexpected_eof x)
    unfolding after_header read_payload
    header_ends (ok header, s') h =
        let (three, read) =
          read_more [] header 3 start s' (tt, sym (append-nil (stream.taken start)), refl) h in
        after_payload header (from_be_bytes (byte_at header 1 ∷ byte_at header 2 ∷ [])) s'
          (stream.read_exact (from_be_bytes (byte_at header 1 ∷ byte_at header 2 ∷ [])) s') three
          refl read refl
    header_ends (err e, s') h = go (is_unexpected_eof e) refl
      where
        go : (b : Bool) → is_unexpected_eof e ≡ b → Ends (if b then (ok none, s') else (err tt, s'))
        go true is = finished e h is refl
        go false is = broken 3 start e h refl

  -- The reading task ends quietly when the stream has ended before a frame, fails when a read
  -- fails, or takes exactly the bytes of one whole frame, sends nothing, and answers with the message
  -- that the frame's bytes carry for a node, or with a failure when they carry none.
  pub read_next_message-Takes :
      (s : S)
      → Takes s
          (read_next_message stream is_unexpected_eof s).0
          (read_next_message stream is_unexpected_eof s).1
  unfolding read_next_message
  read_next_message-Takes s = header_ends s (stream.read_exact 3 s) refl

  -- A message that is returned was carried by a frame.
  Takes-IsReceived :
      (s s' : S) (m : MessageRef) (out : Result (Option MessageRef) (Unit {0}))
      → Takes s out s'
      → out ≡ ok (some m)
      → IsReceived m
  Takes-IsReceived s s' m out (finished e h is o) done = cc
  Takes-IsReceived s s' m out (broken n before e h o) done = cc
  Takes-IsReceived s s' m out (took frame whole all taken sent o) done =
      message_of-IsReceived frame m (parse_frame client_to_node frame) all refl (sym o ∙ done)

  -- The loop has not panicked, and the node is safe.
  abbrev pub LeavesSafe : Loop × Reading stream is_unexpected_eof → Type 0
  LeavesSafe (panicked p, reading) = ⊥
  LeavesSafe (ended, reading) = Safe reading.node
  LeavesSafe (running, reading) = Safe reading.node

  abbrev Again : Type 0
  Again = Reading stream is_unexpected_eof → Loop × Reading stream is_unexpected_eof

  dispatched :
      (again : Again) (s : S) (x : Result Bool Panic × Node)
      → ((reading : Reading stream is_unexpected_eof)
          → Safe reading.node
          → LeavesSafe (again reading))
      → Safely x
      → LeavesSafe (on_dispatch stream is_unexpected_eof again s x)
  unfolding on_dispatch
  dispatched again s x keeps (returned true node is safe) = rw is (keeps _ safe)
  dispatched again s x keeps (returned false node is safe) = rw is safe

  message_read :
      (again : Again) (id : ℕ) (node : Node) (x : Result (Option MessageRef) (Unit {0}) × S)
      → ((reading : Reading stream is_unexpected_eof)
          → Safe reading.node
          → LeavesSafe (again reading))
      → Safe node
      → ((m : MessageRef) → x.0 ≡ ok (some m) → IsReceived m)
      → LeavesSafe (on_read stream is_unexpected_eof again id node x)
  unfolding on_read
  message_read again id node (ok none, s) keeps safe received = safe
  message_read again id node (err u, s) keeps safe received = safe
  message_read again id node (ok (some m), s) keeps safe received =
      dispatched again s (dispatch_message id m node) keeps
        (dispatch_message-Safely id m node (received m refl) safe)

  -- However many messages the reading task of a connection reads, and whatever bytes its peer
  -- sends, the task does not panic, and it leaves the node safe when it was safe.
  pub read_frames-Safe :
      (fuel id : ℕ) (reading : Reading stream is_unexpected_eof)
      → Safe reading.node
      → LeavesSafe (read_frames stream is_unexpected_eof fuel id reading)
  unfolding read_frames
  read_frames-Safe zero id reading safe = safe
  read_frames-Safe (suc fuel) id reading safe =
      message_read (read_frames stream is_unexpected_eof fuel id) id reading.node
        (read_next_message stream is_unexpected_eof reading.source) (read_frames-Safe fuel id) safe
        (λ m done.
          Takes-IsReceived reading.source _ m _ (read_next_message-Takes reading.source) done)
