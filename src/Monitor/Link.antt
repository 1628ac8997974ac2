-- ===== src/Monitor/Link.antt =====
-- The client of crates/qup/src/client.rs as what the worker of crates/qup-test-tui/src/network.rs
-- uses. TCP, the timers, the clock and the viewer's channel are parameters.
use qup.Prelude.{
  ℕ, ◌+◌, ◌≤◌, ◌≡◌, refl, ap, Bool, Option, none, some, Bytes, Result, ok, err, map_ok, map_err,
  length, arith,
}
use qup.Prelude.Exec.{Exec, ◌>>=◌, continue}
use qup.Word.{to_be_bytes}
use qup.Wire.Error.{Opcode}
use qup.Client.Encode.{build_frame}
use qup.Client.Message.{Message, ClientError}
use qup.Client.Names.{list_keys}
use qup.Client.Session.{
  ByteStream, FrameDirection, Client, Call, Halt, failed, call, identify, send_frame, next_message,
  receive, encoded,
}
use qup.Client.Session.Loop.{rest, progress}
use qup.Client.Session.Stream.{next_message-Receives}
use qup.Client.Timeout.{
  send_empty_request, send_keyref_request, send_write_request, within_time, next_message_timeout,
}
use qup.Monitor.App.{Instant}
use qup.Monitor.Table.{Worker}
use qup.Monitor.Worker.{Link}
use qup.Monitor.Worker.Ending.{notices_of, notices_of_small, IsBounded}

module _ {S E T : Type 0} (io_stream : ByteStream S E) (on_frame : FrameDirection → Bytes → T → T)
    (expires : ℕ → S → Option S) where
  -- `TcpClient`, with the fuel for `identify` and `list_keys`.
  abbrev pub client_link :
      (connect : Bytes → Exec (Client S T) (Halt E) (Unit {0}))
      → (now : S → Instant) → (is_viewer_open : S → Bool) → ℕ
      → Link (Client S T) (Halt E)
  client_link connect now is_viewer_open fuel = record {
    now = λ client. now client.stream;
    is_viewer_open = λ client. is_viewer_open client.stream;
    send_empty_request =
        λ opcode. call io_stream on_frame (send_empty_request io_stream on_frame opcode);
    send_keyref_request = λ opcode keyref.
        call io_stream on_frame (send_keyref_request io_stream on_frame opcode keyref);
    send_write_request = λ keyref value.
        call io_stream on_frame (send_write_request io_stream on_frame keyref value);
    next_message_timeout = λ duration.
        call io_stream on_frame (next_message_timeout io_stream on_frame expires duration);
    connect = connect;
    identify = identify io_stream on_frame fuel;
    list_keys = list_keys io_stream on_frame fuel;
  }

  -- What was taken from the stream stays taken, also when a call fails or a timer runs out.
  pub record IsForward : Type 0 where
    pub reads :
        (n : ℕ) (s : S)
        → length (io_stream.taken s) ≤ length (io_stream.taken (io_stream.read_exact n s).1)
    pub writes :
        (bytes : Bytes) (s : S)
        → length (io_stream.taken s) ≤ length (io_stream.taken (io_stream.write_all bytes s).1)
    pub waits :
        (duration : ℕ) (s s' : S)
        → expires duration s ≡ some s'
        → length (io_stream.taken s) ≤ length (io_stream.taken s')

  module _ (forward : IsForward) where
    abbrev Forward : {A : Type 0} → Call io_stream on_frame A → Type 0
    Forward m =
        (c : Client S T)
        → length (io_stream.taken c.stream) ≤ length (io_stream.taken (m c).1.stream)

    Forward-bind :
        {A B : Type 0} (m : Call io_stream on_frame A) (f : A → Call io_stream on_frame B)
        → Forward m
        → ((a : A) → Forward (f a))
        → Forward (m >>= f)
    Forward-bind {A} {B} m f first rest c = go (m c).0 (m c).1 (first c)
      where
        go :
            (r : Result A (ClientError E)) (c1 : Client S T)
            → length (io_stream.taken c.stream) ≤ length (io_stream.taken c1.stream)
            → length (io_stream.taken c.stream)
              ≤ length (io_stream.taken (continue {B = B} (r, c1) f).1.stream)
        go (ok a) c1 le = omega (arith, le, rest a c1)
        go (err e) c1 le = le

    next_message-Forward : Forward (next_message io_stream on_frame)
    unfolding next_message
    next_message-Forward =
        Forward-bind (receive io_stream on_frame 3) _ (λ c. forward.reads 3 c.stream)
          (λ header.
            Forward-bind (receive io_stream on_frame _) _ (λ c. forward.reads _ c.stream)
              (λ payload.
                Forward-bind (receive io_stream on_frame 1) _ (λ c. forward.reads 1 c.stream)
                  (λ checksum c. omega arith)))

    send_frame-Forward :
        (opcode : Opcode) (payload : Bytes) → Forward (send_frame io_stream on_frame opcode payload)
    unfolding send_frame
    send_frame-Forward opcode payload =
        Forward-bind (encoded io_stream on_frame (build_frame opcode payload)) _ (λ c. omega arith)
          (λ frame c. forward.writes frame c.stream)

    module _ (limit : ℕ) (limited : (s : S) → length (io_stream.taken s) ≤ limit)
        (connect : Bytes → Exec (Client S T) (Halt E) (Unit {0})) (now : S → Instant)
        (is_viewer_open : S → Bool) (fuel : ℕ) where
      received :
          (client : Client S T) (message : Result Message (ClientError E)) (client' : Client S T)
          → next_message io_stream on_frame client ≡ (message, client')
          → notices_of (map_err failed (map_ok some message))
              + rest io_stream on_frame limit limited client'
            ≤ rest io_stream on_frame limit limited client
      received client (err e) client' h =
          let le = next_message-Forward client in
          let same : (next_message io_stream on_frame client).1 ≡ client' = ap (λ x. x.1) h in
          let grown : length (io_stream.taken client.stream)
              ≤ length (io_stream.taken client'.stream) =
            rw (← same) le in
          omega (arith, grown)
      received client (ok message) client' h = omega (
        arith,
        notices_of_small {X = Halt E} (ok (some message)),
        progress io_stream on_frame limit limited client client' message
            (rw h at (next_message-Receives io_stream on_frame client)),
      )

      in_time :
          (duration : ℕ) (client : Client S T) (expired : Option S)
          → expires duration client.stream ≡ expired
          → notices_of (map_err failed (within_time io_stream on_frame expired client).0)
              + rest io_stream on_frame limit limited
                  (within_time io_stream on_frame expired client).1
            ≤ rest io_stream on_frame limit limited client
      in_time duration client (some stream) e =
          omega (arith, forward.waits duration client.stream stream e)
      in_time duration client none e =
          received client (next_message io_stream on_frame client).0
            (next_message io_stream on_frame client).1 refl

      -- A stream that gives a bounded number of bytes bounds the notices that the worker sees.
      pub client_link-IsBounded :
          IsBounded
            (client_link connect now is_viewer_open fuel)
            (rest io_stream on_frame limit limited)
      unfolding next_message_timeout send_keyref_request
      client_link-IsBounded = record {
        receives = λ duration client client' r h.
            let out = in_time duration client (expires duration client.stream) refl in
            let result_is = ap (λ x. x.0) h in
            let client_is = ap (λ x. x.1) h in rw (← result_is, ← client_is) out;
        asks = λ opcode keyref client.
            omega (arith, send_frame-Forward opcode (to_be_bytes 2 keyref) client);
      }
