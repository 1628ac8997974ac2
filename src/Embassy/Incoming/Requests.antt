-- ===== src/Embassy/Incoming/Requests.antt =====
-- The body of a request, by its opcode.
use qup.Prelude.{
  ℕ, ◌-◌, ◌^◌, ◌≤◌, ◌<◌, ◌≡◌, refl, sym, ap, ◌∙◌, inl, inr, Bool, true, false, Bool-cases, [], ◌∷◌,
  ◌++◌, append-nil, Bytes, Result, ok, length, length-append, if◌then◌else◌, ◌==◌, ltb, arith,
}
use qup.Prelude.Exec.{continue-ok, pure, ◌>>=◌, ◌>>◌}
use qup.Word.{from_be_bytes, to_be_bytes}
use qup.Word.BigEndian.{to_be_bytes-from_be_bytes, from_be_bytes-lt}
use qup.Wire.Codes
use qup.Wire.Error.{Opcode}
use qup.Wire.Reader.{byte_at}
use qup.Wire.Value.{ValueRef, kind_from_byte}
use qup.Wire.Value.Encoding.{encode_value}
use qup.Wire.Message.Types.{MessageRef, RequestRef, request, compatibility_request}
use qup.Wire.Message.Encoding.{opcode_of, payload_of, IsWireMessage}
use qup.Client.Session.{ByteStream}
use qup.Embassy.Error.{ServerError}
use qup.Embassy.Key.{WireValueRef}
use qup.Embassy.Stream.{Request, read_exact_tracked, finish_checksum}
use qup.Embassy.Incoming
use qup.Embassy.Incoming.{
  IncomingRequest, Reads, checked, length_fault, refuse_payload, read_string, read_str_value,
  read_kind, read_write_request, read_empty_request, read_keyref_request, read_payload_of,
  read_body, after_read, read_request, read_short, read_oversized,
}
use qup.Embassy.Incoming.Tracking.{
  Got, read_exact_tracked-Got, Finished, more-Finished, finish_checksum-Finished,
  refuse_payload-never, one_byte,
}
use qup.Embassy.Incoming.Values.{Meant, Value}
use qup.Embassy.Incoming.Kinds.{read_kind-Value}

module _ {S E : Type 0} (stream : ByteStream S E) (max_str : ℕ) where
  -- The message that a request stands for.
  abbrev pub Stands : IncomingRequest → MessageRef → Type 0
  Stands Incoming.ping m = m ≡ request RequestRef.ping
  Stands Incoming.identify m = m ≡ request RequestRef.identify
  Stands Incoming.get_caps m = m ≡ compatibility_request
  Stands Incoming.get_keytab_len m = m ≡ request RequestRef.get_keytab_len
  Stands (Incoming.get_key keyref) m = m ≡ request (RequestRef.get_key keyref)
  Stands (Incoming.get keyref) m = m ≡ request (RequestRef.get keyref)
  Stands (Incoming.observe keyref) m = m ≡ request (RequestRef.observe keyref)
  Stands (Incoming.unobserve keyref) m = m ≡ request (RequestRef.unobserve keyref)
  Stands (Incoming.write keyref sent_value) m =
      (value : ValueRef) × (m ≡ request (RequestRef.write keyref value))
      × Meant max_str sent_value value

  -- A payload was taken, with its checksum, and it is the wire form of the request's message.
  pub record Body (opcode : Opcode) (payload_len : ℕ) (incoming : IncomingRequest)
      (before after : Request S) : Type 0 where
    pub message : MessageRef
    pub finished : Finished stream (payload_of message) before after
    pub counted : length (payload_of message) ≡ payload_len
    pub opcode_is : opcode_of message ≡ opcode
    pub carried : IsWireMessage message
    pub stands : Stands incoming message

  read_empty_request-Body :
      (opcode payload_len : ℕ) (meaning incoming : IncomingRequest) (message : MessageRef)
      (before after : Request S)
      → payload_of message ≡ []
      → opcode_of message ≡ opcode
      → IsWireMessage message
      → Stands meaning message
      → read_empty_request stream opcode payload_len meaning before ≡ (ok incoming, after)
      → Body opcode payload_len incoming before after
  unfolding read_empty_request
  read_empty_request-Body opcode payload_len meaning incoming message before after empty is carried
        stands h =
      elim (Bool-cases (payload_len == 0)) [
        | inr other ↦
            absurd (refuse_payload-never stream payload_len _ before after incoming (rw other at h))
        | inl none_left ↦
            let (u, r1, finished, h1) =
              continue-ok (finish_checksum stream before) (λ u. pure meaning) (rw none_left at h) in
            let last : r1 ≡ after = ap (λ p. p.1) h1 in
            let same : meaning ≡ incoming = ground arith in
            record {
              message = message;
              finished = rw empty (rw last at (finish_checksum-Finished stream before r1 finished));
              counted = ap length empty ∙ ground arith;
              opcode_is = is;
              carried = carried;
              stands = rw same at stands;
            }
      ]

  read_keyref_request-Body :
      (opcode payload_len : ℕ) (meaning : ℕ → IncomingRequest) (incoming : IncomingRequest)
      (message : ℕ → MessageRef) (before after : Request S)
      → ((k : ℕ) → payload_of (message k) ≡ to_be_bytes 2 k)
      → ((k : ℕ) → opcode_of (message k) ≡ opcode)
      → ((k : ℕ) → k < 2 ^ 16 → IsWireMessage (message k))
      → ((k : ℕ) → Stands (meaning k) (message k))
      → read_keyref_request stream opcode payload_len meaning before ≡ (ok incoming, after)
      → Body opcode payload_len incoming before after
  unfolding read_keyref_request
  read_keyref_request-Body opcode payload_len meaning incoming message before after form is carried
        stands h =
      elim (Bool-cases (payload_len == 2)) [
        | inr other ↦
            absurd (refuse_payload-never stream payload_len _ before after incoming (rw other at h))
        | inl two ↦
            let (bytes, r1, read, h1) =
              continue-ok (read_exact_tracked stream 2 before)
                (λ keyref. finish_checksum stream >> pure (meaning (from_be_bytes keyref)))
                (rw two at h) in
            let (u, r2, finished, h2) =
              continue-ok (finish_checksum stream r1) (λ u. pure (meaning (from_be_bytes bytes)))
                h1 in
            let (counted, got) = read_exact_tracked-Got stream 2 before r1 bytes read in
            let last : r2 ≡ after = ap (λ p. p.1) h2 in
            let same : meaning (from_be_bytes bytes) ≡ incoming = ground arith in
            let wire : payload_of (message (from_be_bytes bytes)) ≡ bytes =
              form (from_be_bytes bytes)
              ∙ ap (λ n. to_be_bytes n (from_be_bytes bytes)) (sym counted)
              ∙ to_be_bytes-from_be_bytes bytes got.all in
            record {
              message = message (from_be_bytes bytes);
              finished = rw wire (
                  rw (append-nil bytes) at (
                    more-Finished stream bytes [] before r1 after got
                      (rw last at (finish_checksum-Finished stream r1 r2 finished))));
              counted = ap length wire ∙ counted ∙ ground arith;
              opcode_is = is (from_be_bytes bytes);
              carried =
                  carried (from_be_bytes bytes) (rw counted at (from_be_bytes-lt bytes got.all));
              stands = rw same at (stands (from_be_bytes bytes));
            }
      ]

  write-Stands :
      (incoming : IncomingRequest) (keyref : ℕ) (sent_value : WireValueRef) (value : ValueRef)
      → incoming ≡ Incoming.write keyref sent_value
      → Meant max_str sent_value value
      → Stands incoming (request (RequestRef.write keyref value))
  write-Stands incoming keyref sent_value value is meant = rw is (value, refl, meant)

  -- A key reference, a tag and a value make up the body of a WRITE.
  write-Body :
      (payload_len : ℕ) (incoming : IncomingRequest) (bytes : Bytes) (tag : ℕ)
      (before r1 r2 after : Request S)
      → 3 ≤ payload_len
      → length bytes ≡ 2
      → Got stream bytes before r1
      → Got stream (tag ∷ []) r1 r2
      → Value stream max_str (from_be_bytes bytes) tag (payload_len - 3) incoming r2 after
      → Body Codes.write payload_len incoming before after
  write-Body payload_len incoming bytes tag before r1 r2 after enough counted got got_tag found =
      let keyref = from_be_bytes bytes in
      let head : to_be_bytes 2 keyref ≡ bytes =
        ap (λ n. to_be_bytes n keyref) (sym counted) ∙ to_be_bytes-from_be_bytes bytes got.all in
      let wire : to_be_bytes 2 keyref ++ encode_value found.value ≡ bytes ++ (tag ∷ found.bytes) =
        ap (λ t. t ++ encode_value found.value) head ∙ ap (λ t. bytes ++ t) (sym found.encoded) in
      record {
        message = request (RequestRef.write keyref found.value);
        finished = rw wire (
            more-Finished stream bytes (tag ∷ found.bytes) before r1 after got
              (more-Finished stream (tag ∷ []) found.bytes r1 r2 after got_tag found.finished));
        counted =
            ap length wire
            ∙ omega
                (arith, length-append bytes (tag ∷ found.bytes), counted, found.counted, enough);
        opcode_is = refl;
        carried = (rw counted at (from_be_bytes-lt bytes got.all), found.carried);
        stands =
            write-Stands incoming keyref found.sent_value found.value found.request_is found.meant;
      }

  read_write_request-Body :
      (payload_len : ℕ) (incoming : IncomingRequest) (before after : Request S)
      → read_write_request stream max_str payload_len before ≡ (ok incoming, after)
      → Body Codes.write payload_len incoming before after
  unfolding read_write_request
  read_write_request-Body payload_len incoming before after h =
      elim (Bool-cases (ltb payload_len 3)) [
        | inl short ↦
            absurd (refuse_payload-never stream payload_len _ before after incoming (rw short at h))
        | inr enough ↦
            let (bytes, r1, read, h1) =
              continue-ok (read_exact_tracked stream 2 before)
                (λ keyref_bytes. read_exact_tracked stream 1 >>= λ kind.
                  read_kind stream max_str (from_be_bytes keyref_bytes) (payload_len - 3)
                    (kind_from_byte (byte_at kind 0)))
                (rw enough at h) in
            let keyref = from_be_bytes bytes in
            let (kind, r2, read_tag, h2) =
              continue-ok (read_exact_tracked stream 1 r1)
                (λ kind.
                  read_kind stream max_str keyref (payload_len - 3)
                    (kind_from_byte (byte_at kind 0)))
                h1 in
            let (counted, got) = read_exact_tracked-Got stream 2 before r1 bytes read in
            let (one, got_tag) = read_exact_tracked-Got stream 1 r1 r2 kind read_tag in
            let tag = byte_at kind 0 in
            write-Body payload_len incoming bytes tag before r1 r2 after (ground arith) counted got
              (rw (one_byte kind one) at got_tag)
              (read_kind-Value stream max_str keyref tag (payload_len - 3) (kind_from_byte tag)
                incoming r2 after refl h2)
      ]

  one_code : (opcode code : ℕ) → (opcode == code) ≡ true → code ≡ opcode
  one_code opcode code h = ground arith

  -- The arm that was taken.
  arm :
      {P : Type 0} (taken : Bool) (m n : Reads stream) (before : Request S)
      (out : Result IncomingRequest (ServerError E) × Request S)
      → (if taken then m else n) before ≡ out
      → (taken ≡ true → m before ≡ out → P)
      → (n before ≡ out → P)
      → P
  arm true m n before out h first rest = first refl h
  arm false m n before out h first rest = rest h

  module _ (opcode payload_len : ℕ) (incoming : IncomingRequest) (before after : Request S) where
    empty_arm :
        (meaning : IncomingRequest) (message : MessageRef)
        → payload_of message ≡ []
        → IsWireMessage message
        → Stands meaning message
        → (opcode == opcode_of message) ≡ true
        → read_empty_request stream opcode payload_len meaning before ≡ (ok incoming, after)
        → Body opcode payload_len incoming before after
    empty_arm meaning message empty carried stands is h =
        read_empty_request-Body opcode payload_len meaning incoming message before after empty
          (one_code opcode (opcode_of message) is) carried stands h

    keyref_arm :
        (meaning : ℕ → IncomingRequest) (message : ℕ → RequestRef)
        → ((k : ℕ) → payload_of (request (message k)) ≡ to_be_bytes 2 k)
        → ((k : ℕ) → opcode_of (request (message k)) ≡ opcode_of (request (message 0)))
        → ((k : ℕ) → k < 2 ^ 16 → IsWireMessage (request (message k)))
        → ((k : ℕ) → Stands (meaning k) (request (message k)))
        → (opcode == opcode_of (request (message 0))) ≡ true
        → read_keyref_request stream opcode payload_len meaning before ≡ (ok incoming, after)
        → Body opcode payload_len incoming before after
    keyref_arm meaning message form codes carried stands is h =
        read_keyref_request-Body opcode payload_len meaning incoming (λ k. request (message k))
          before after form (λ k. codes k ∙ one_code opcode (opcode_of (request (message 0))) is)
          carried stands h

    pub read_payload_of-Body :
        read_payload_of stream max_str opcode payload_len before ≡ (ok incoming, after)
        → Body opcode payload_len incoming before after
    unfolding read_payload_of
    read_payload_of-Body h =
        arm (opcode == Codes.ping) _ _ before (ok incoming, after) h
          (empty_arm Incoming.ping (request RequestRef.ping) refl tt refl)
          (λ h1.
            arm (opcode == Codes.identify) _ _ before (ok incoming, after) h1
              (empty_arm Incoming.identify (request RequestRef.identify) refl tt refl)
              (λ h2.
                arm (opcode == Codes.getkeytablen) _ _ before (ok incoming, after) h2
                  (empty_arm Incoming.get_keytab_len (request RequestRef.get_keytab_len) refl tt
                    refl)
                  (λ h3.
                    arm (opcode == Codes.getcaps) _ _ before (ok incoming, after) h3
                      (empty_arm Incoming.get_caps compatibility_request refl tt refl)
                      (λ h4.
                        arm (opcode == Codes.getkey) _ _ before (ok incoming, after) h4
                          (keyref_arm Incoming.get_key RequestRef.get_key (λ k. refl) (λ k. refl)
                            (λ k lt. lt) (λ k. refl))
                          (λ h5.
                            arm (opcode == Codes.get) _ _ before (ok incoming, after) h5
                              (keyref_arm Incoming.get RequestRef.get (λ k. refl) (λ k. refl)
                                (λ k lt. lt) (λ k. refl))
                              (λ h6.
                                arm (opcode == Codes.observe) _ _ before (ok incoming, after) h6
                                  (keyref_arm Incoming.observe RequestRef.observe (λ k. refl)
                                    (λ k. refl) (λ k lt. lt) (λ k. refl))
                                  (λ h7.
                                    arm (opcode == Codes.unobserve) _ _ before (ok incoming, after)
                                      h7
                                      (keyref_arm Incoming.unobserve RequestRef.unobserve
                                        (λ k. refl) (λ k. refl) (λ k lt. lt) (λ k. refl))
                                      (λ h8.
                                        arm (opcode == Codes.write) _ _ before (ok incoming, after)
                                          h8
                                          (λ is g. rw (one_code opcode Codes.write is) at (
                                            read_write_request-Body payload_len incoming before
                                              after g))
                                          (λ g. cc)))))))))
