-- ===== src/Client/Session/Exchange.antt =====
-- A request that succeeded: what went over the stream in each direction.
use qup.Prelude.{
  ℕ, zero, suc, ◌≡◌, refl, sym, ap, ◌∙◌, inl, inr, true, false, Bool-cases, [], ◌++◌, append_assoc,
  Bytes, Result, ok, err, map_err, Result-cases, arith, if◌then◌else◌,
}
use qup.Prelude.Exec.{continue, pure}
use qup.Wire.Error.{Opcode}
use qup.Client.Encode.{build_frame}
use qup.Client.Message.{Message, ClientError, IoError, io}
use qup.Client.Session.{
  ByteStream, FrameDirection, Client, failed, is_changed, accept_frame, next_message,
  read_request_response, send_frame, traced,
}
use qup.Client.Session.Receive.{
  Carries, Verdict, bad_frame, bad_payload, accepted, accept_frame-Verdict,
}
use qup.Client.Session.Stream.{Receives, stopped, framed, next_message-Receives}

-- Frames that each carry a CHANGED notification, one after the other.
pub data Notifications (E : Type 0) : Bytes → Type 0 where
  none : Notifications E []
  more :
      {rest : Bytes} (frame : Bytes) (message : Message)
      → Carries E frame message
      → is_changed message ≡ true
      → Notifications E rest
      → Notifications E (frame ++ rest)

Verdict-ok :
    {E : Type 0} (frame : Bytes) (out : Result Message (ClientError E)) (m : Message)
    → Verdict frame out
    → out ≡ ok m
    → Carries E frame m
Verdict-ok frame out m (bad_frame e p is) h = cc
Verdict-ok frame out m (bad_payload view e p d is) h = cc
Verdict-ok {E} frame out m (accepted n carries is) h =
    let same : n ≡ m = ground arith in rw⁻¹ same carries

module _ {S E T : Type 0} (io_stream : ByteStream S E)
    (on_frame : FrameDirection → Bytes → T → T) where
  -- One frame was taken, which carries the message.
  record Taken (client : Client S T) (m : Message) (client' : Client S T) : Type 0 where
    pub frame : Bytes
    pub carries : Carries E frame m
    pub taken : io_stream.taken client'.stream ≡ io_stream.taken client.stream ++ frame
    pub sent : io_stream.sent client'.stream ≡ io_stream.sent client.stream

  -- Frames of notifications were taken, and then one that carries the message, which is none.
  pub record Heard (client : Client S T) (m : Message) (client' : Client S T) : Type 0 where
    pub skipped : Bytes
    pub notifications : Notifications E skipped
    pub response : Bytes
    pub carries : Carries E response m
    pub is_answer : is_changed m ≡ false
    pub taken :
        io_stream.taken client'.stream ≡ io_stream.taken client.stream ++ (skipped ++ response)
    pub sent : io_stream.sent client'.stream ≡ io_stream.sent client.stream

  next_message-Taken :
      (client client' : Client S T) (m : Message)
      → Receives io_stream on_frame client (ok m) client'
      → Taken client m client'
  next_message-Taken client client' m (stopped n s e h t bad) = cc
  next_message-Taken client client' m (framed frame whole all taken sent t out) = record {
    frame = frame;
    carries = Verdict-ok frame (accept_frame frame) m (accept_frame-Verdict frame all) (sym out);
    taken = taken;
    sent = sent;
  }

  one-Heard :
      (client client' : Client S T) (m : Message)
      → Taken client m client'
      → is_changed m ≡ false
      → Heard client m client'
  one-Heard client client' m only other = record {
    skipped = [];
    notifications = none;
    response = only.frame;
    carries = only.carries;
    is_answer = other;
    taken = only.taken;
    sent = only.sent;
  }

  more-Heard :
      (client client1 client' : Client S T) (notification m : Message)
      → Taken client notification client1
      → is_changed notification ≡ true
      → Heard client1 m client'
      → Heard client m client'
  more-Heard client client1 client' notification m first changed last = record {
    skipped = first.frame ++ last.skipped;
    notifications = more first.frame notification first.carries changed last.notifications;
    response = last.response;
    carries = last.carries;
    is_answer = last.is_answer;
    taken =
        last.taken
        ∙ ap (λ t. t ++ (last.skipped ++ last.response)) first.taken
        ∙ append_assoc (io_stream.taken client.stream) first.frame (last.skipped ++ last.response)
        ∙ ap (λ t. io_stream.taken client.stream ++ t)
            (sym (append_assoc first.frame last.skipped last.response));
    sent = last.sent ∙ first.sent;
  }

  after-Heard :
      (fuel : ℕ) (client client' : Client S T) (m : Message)
      (x : Result Message (ClientError E) × Client S T)
      → ((c : Client S T)
          → read_request_response io_stream on_frame fuel c ≡ (ok m, client')
          → Heard c m client')
      → next_message io_stream on_frame client ≡ x
      → continue
          (map_err failed x.0, x.1)
          (λ n. if is_changed n then read_request_response io_stream on_frame fuel else pure n)
        ≡ (ok m, client')
      → Heard client m client'
  after-Heard fuel client client' m (err e, c) later next h = cc
  after-Heard fuel client client' m (ok n, c) later next h =
      let first =
        next_message-Taken client c n
          (rw next at (next_message-Receives io_stream on_frame client)) in
      elim (Bool-cases (is_changed n)) [
        | inl changed ↦ more-Heard client c client' n m first changed (later c (rw changed at h))
        | inr other ↦
            let ended = rw other at h in
            let n_is : n ≡ m = ground arith in
            let c_is : c ≡ client' = ap (λ p. p.1) ended in
            rw⁻¹ n_is (rw⁻¹ c_is (one-Heard client c n first other))
      ]

  pub read_request_response-Heard :
      (fuel : ℕ) (client client' : Client S T) (m : Message)
      → read_request_response io_stream on_frame fuel client ≡ (ok m, client')
      → Heard client m client'
  unfolding read_request_response
  read_request_response-Heard zero client client' m h = cc
  read_request_response-Heard (suc fuel) client client' m h =
      after-Heard fuel client client' m (next_message io_stream on_frame client)
        (λ c. read_request_response-Heard fuel c client' m) refl h

  -- A frame was built and written.
  pub record Sent (opcode : Opcode) (payload : Bytes) (client client' : Client S T) : Type 0 where
    pub request : Bytes
    pub built : build_frame opcode payload ≡ ok request
    pub sent : io_stream.sent client'.stream ≡ io_stream.sent client.stream ++ request
    pub taken : io_stream.taken client'.stream ≡ io_stream.taken client.stream

  -- What `transmit` makes of the end of `write_all`.
  abbrev write_end :
      Client S T → Result (Unit {0}) E × S → Result (Unit {0}) (ClientError E) × Client S T
  write_end c x = (map_err (λ e. io (IoError.stream e)) x.0, record c { stream = x.1 })

  written :
      (opcode : Opcode) (payload request : Bytes) (client c client' : Client S T)
      (x : Result (Unit {0}) E × S)
      → build_frame opcode payload ≡ ok request
      → io_stream.write_all request client.stream ≡ x
      → write_end c x ≡ (ok tt, client')
      → Sent opcode payload client client'
  written opcode payload request client c client' (err e, s) built wrote h = cc
  written opcode payload request client c client' (ok tt, s) built wrote h =
      let (taken, sent) = io_stream.writes request client.stream s wrote in
      let stream_is : s ≡ client'.stream = ap (λ p. p.1.stream) h in
      record {
        request = request;
        built = built;
        sent = rw⁻¹ stream_is sent;
        taken = rw⁻¹ stream_is taken;
      }

  pub send_frame-Sent :
      (opcode : Opcode) (payload : Bytes) (client client' : Client S T)
      → send_frame io_stream on_frame opcode payload client ≡ (ok tt, client')
      → Sent opcode payload client client'
  unfolding send_frame
  send_frame-Sent opcode payload client client' h =
      elim (Result-cases (build_frame opcode payload)) [
        | inr (e, refused) ↦ let bad = rw refused at h in cc
        | inl (request, built) ↦
            written opcode payload request client
              (record client {
                frame_trace =
                    traced io_stream on_frame FrameDirection.tx request client.frame_trace;
              })
              client' (io_stream.write_all request client.stream) built refl (rw built at h)
      ]
