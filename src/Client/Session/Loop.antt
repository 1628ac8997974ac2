-- ===== src/Client/Session/Loop.antt =====
-- The loop that waits for the answer of a request and skips CHANGED notifications.
use qup.Prelude.{
  ℕ, zero, suc, ◌-◌, ◌≤◌, ◌<◌, ◌≡◌, refl, sym, ap, ◌∙◌, inl, inr, true, false, Bool-cases, [], ◌∷◌,
  Bytes, Result, ok, err, map_err, length, length-append, if◌then◌else◌, arith,
}
use qup.Prelude.Exec.{continue, pure}
use qup.Wire.Frame.{parse_frame}
use qup.Client.Message.{Message, ClientError}
use qup.Client.Session.{
  ByteStream, FrameDirection, Client, Halt, failed, is_changed, accept_frame, accept_view,
  next_message, read_request_response,
}
use qup.Client.Session.Stream.{Receives, stopped, framed, next_message-Receives}

module _ {S E T : Type 0} (io_stream : ByteStream S E)
    (on_frame : FrameDirection → Bytes → T → T) where
  -- After `n` messages the loop ends: those before the last are notifications, and the last is
  -- another message or an error.
  pub data Answers : ℕ → Client S T → Result Message (Halt E) → Client S T → Type 0 where
    failing :
        {client client' : Client S T} (e : ClientError E)
        → next_message io_stream on_frame client ≡ (err e, client')
        → Answers 1 client (err (failed e)) client'
    answering :
        {client client' : Client S T} (message : Message)
        → next_message io_stream on_frame client ≡ (ok message, client')
        → is_changed message ≡ false
        → Answers 1 client (ok message) client'
    notified :
        {n : ℕ} {client client1 client' : Client S T} {out : Result Message (Halt E)}
        (message : Message)
        → next_message io_stream on_frame client ≡ (ok message, client1)
        → is_changed message ≡ true
        → Answers n client1 out client'
        → Answers (suc n) client out client'

  -- If the loop's run takes `n` messages, then fuel for `n` messages gives its answer.
  pub read_request_response_complete :
      (fuel : ℕ) {n : ℕ} {client client' : Client S T} {out : Result Message (Halt E)}
      → Answers n client out client'
      → n ≤ fuel
      → read_request_response io_stream on_frame fuel client ≡ (out, client')
  unfolding read_request_response
  read_request_response_complete zero (failing e h) le = absurd (omega arith)
  read_request_response_complete zero (answering message h other) le = absurd (omega arith)
  read_request_response_complete zero (notified message h changed a) le = absurd (omega arith)
  read_request_response_complete (suc fuel) (failing e h) le = rw h refl
  read_request_response_complete (suc fuel) (answering message h other) le = rw h (rw other refl)
  read_request_response_complete (suc fuel) (notified message h changed a) le =
      rw h (rw changed (read_request_response_complete fuel a (omega arith)))

  -- The loop has answered, within its fuel.
  abbrev pub Answered : ℕ → Client S T → Result Message (Halt E) × Client S T → Type 0
  Answered fuel client x = (n : ℕ) × (n ≤ fuel) × Answers n client x.0 x.1

  module _ (limit : ℕ) (limited : (s : S) → length (io_stream.taken s) ≤ limit) where
    -- What the stream can still give.
    abbrev pub rest : Client S T → ℕ
    rest client = limit - length (io_stream.taken client.stream)

    nonempty : (frame : Bytes) (m : Message) → accept_frame {E = E} frame ≡ ok m → 0 < length frame
    unfolding accept_frame accept_view parse_frame
    nonempty [] m h = cc
    nonempty (b ∷ bs) m h = omega arith

    pub progress :
        (client client' : Client S T) (m : Message)
        → Receives io_stream on_frame client (ok m) client'
        → rest client' < rest client
    progress client client' m (stopped n s e h t bad) = cc
    progress client client' m (framed frame whole all taken sent t out) =
        let len = ap length taken ∙ length-append (io_stream.taken client.stream) frame in
        let pos = nonempty frame m (sym out) in let lim = limited client'.stream in omega arith

    after :
        (fuel : ℕ) (client : Client S T) (x : Result Message (ClientError E) × Client S T)
        → rest client < suc fuel
        → ((c : Client S T)
            → rest c < fuel
            → Answered fuel c (read_request_response io_stream on_frame fuel c))
        → next_message io_stream on_frame client ≡ x
        → Answered (suc fuel) client (
            continue
              (map_err failed x.0, x.1)
              (λ m. if is_changed m then read_request_response io_stream on_frame fuel else pure m))
    after fuel client (err e, client') lt later h = (1, omega arith, failing e h)
    after fuel client (ok m, client') lt later h = elim (Bool-cases (is_changed m)) [
      | inr other ↦ rw other (1, omega arith, answering m h other)
      | inl changed ↦
          let less =
            progress client client' m (rw h at (next_message-Receives io_stream on_frame client)) in
          let (n, le, a) = later client' (omega arith) in
          rw changed (suc n, omega arith, notified m h changed a)
    ]

    -- When the peer sends a bounded number of bytes, fuel beyond what is left of them is enough: the
    -- loop ends with the first message that is no notification, or with the first error.
    pub read_request_response-Answered :
        (fuel : ℕ) (client : Client S T)
        → rest client < fuel
        → Answered fuel client (read_request_response io_stream on_frame fuel client)
    unfolding read_request_response
    read_request_response-Answered zero client lt = absurd (omega arith)
    read_request_response-Answered (suc fuel) client lt =
        after fuel client (next_message io_stream on_frame client) lt
          (read_request_response-Answered fuel) refl
