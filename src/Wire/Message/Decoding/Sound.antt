-- ===== src/Wire/Message/Decoding/Sound.antt =====
-- A decoded message is one that the wire can carry, and the payload is its wire form.
use qup.Prelude.{
  ℕ, ◌≡◌, refl, sym, ap, ◌∙◌, ◌++◌, append-nil, [], ◌∷◌, Bytes, Bool, true, false, Result, ok,
  length, length-append, ◌==◌, ==_iff, Bool-cases, inl, inr, if◌then◌else◌, arith,
}
use qup.Prelude.Exec.{pure, lift, ◌>>=◌}
use qup.Word.{AllBytes, to_be_bytes}
use qup.Word.BigEndian.{length-to_be_bytes}
use qup.Wire.Error.{Opcode, PayloadError}
use qup.Wire.Scalar.{new_key_flags}
use qup.Wire.Scalar.Flags.{new_key_flags-ok}
use qup.Wire.Value.{ValueRef, decode_value}
use qup.Wire.Value.Encoding.{encode_value, IsWireValue, Splits-decode_value}
use qup.Wire.Cursor.{Read, finish, read_u8, read_u16, read_str16}
use qup.Wire.Cursor.Reads.{bytes16}
use qup.Wire.Cursor.Inverse.{
  Splits, Splits-concat, continue-ok, Splits-read_u8, Splits-read_u16, Splits-read_str16,
}
use qup.Wire.Caps.{parse, parse_raw}
use qup.Wire.Message.{
  run, decode, decode_empty, expect_empty, expect_len, word_body, write_body, identified_body,
  key_body, value_response, value_body, caps_body, error_body,
}
use qup.Wire.Message.Types.{
  RequestRef, OrdinaryResponseRef, MessageRef, request, ordinary_response, compatibility_request,
  compatibility_response, error, changed,
}
use qup.Wire.Message.Encoding.{opcode_of, payload_of, IsU16, IsWireMessage}

-- The message fits the frame that it was decoded from.
pub record Fits (opcode : Opcode) (payload : Bytes) (message : MessageRef) : Type 0 where
  pub opcode_is : opcode ≡ opcode_of message
  pub payload_is : payload ≡ payload_of message
  pub carried : IsWireMessage message

abbrev Sound : Opcode → Bytes → Result MessageRef PayloadError → Type 0
Sound opcode payload r = (message : MessageRef) → r ≡ ok message → Fits opcode payload message

Sound-if :
    (c opcode : ℕ) (payload : Bytes) (x y : Result MessageRef PayloadError)
    → (opcode ≡ c → Sound opcode payload x)
    → Sound opcode payload y
    → Sound opcode payload (if opcode == c then x else y)
Sound-if c opcode payload x y sx sy message h = elim (Bool-cases (opcode == c)) [
  | inl e ↦ sx ((==_iff opcode c).0 e) message (rw e at h)
  | inr e ↦ sy message (rw e at h)
]

-- `finish` succeeds only where nothing is left.
finish-ok : (s : Bytes) {t : Bytes} → finish s ≡ (ok tt, t) → s ≡ []
unfolding finish
finish-ok [] h = refl
finish-ok (b ∷ s) h = cc

abbrev finish_with : MessageRef → Read MessageRef
finish_with message = finish >>= λ _. pure message

-- The end of each body: nothing is left, and the message is returned.
finish_with-ok :
    (made message : MessageRef) (s : Bytes) {t : Bytes}
    → finish_with made s ≡ (ok message, t)
    → (made ≡ message) × (s ≡ [])
unfolding finish
finish_with-ok made message [] h = (cc, refl)
finish_with-ok made message (b ∷ s) h = cc

run-ok : {A : Type 0} (m : Read A) (s : Bytes) {a : A} → run m s ≡ ok a → m s ≡ (ok a, (m s).1)
run-ok m s h = ap (λ r. (r, (m s).1)) h

whole : {s bytes rest : Bytes} → Splits s bytes rest → rest ≡ [] → s ≡ bytes
whole {s} {bytes} {rest} split e = split.joined ∙ ap (λ r. bytes ++ r) e ∙ append-nil bytes

decode_empty-ok :
    (opcode : Opcode) (made message : MessageRef) (payload : Bytes)
    → decode_empty opcode made payload ≡ ok message
    → (made ≡ message) × (payload ≡ [])
unfolding decode_empty expect_empty
decode_empty-ok opcode made message [] h = (cc, refl)
decode_empty-ok opcode made message (b ∷ p) h = cc

expect_len-ok :
    (opcode : Opcode) (payload : Bytes) (n : ℕ)
    → expect_len opcode payload n ≡ ok tt
    → length payload ≡ n
unfolding expect_len
expect_len-ok opcode payload n h = ground arith

length-zero : (t : Bytes) → length t ≡ 0 → t ≡ []
length-zero [] e = refl
length-zero (b ∷ t) e = absurd (omega arith)

no_rest : (v : ℕ) (payload t : Bytes) → payload ≡ to_be_bytes 2 v ++ t → length payload ≡ 2 → t ≡ []
no_rest v payload t e two =
    length-zero t
      (omega (arith, ap length e, length-append {0} (to_be_bytes 2 v) t, length-to_be_bytes 2 v))

value_response-Fits :
    (opcode : Opcode) (payload : Bytes) (is_written : Bool) (value : ValueRef)
    → opcode ≡ (if is_written then b'w' else b'g')
    → payload ≡ encode_value value
    → IsWireValue value
    → Fits opcode payload (value_response is_written value)
value_response-Fits opcode payload true value o p w = record {
  opcode_is = o;
  payload_is = p;
  carried = w;
}
value_response-Fits opcode payload false value o p w = record {
  opcode_is = o;
  payload_is = p;
  carried = w;
}

error_body-ok :
    (opcode : Opcode) (payload : Bytes) (message : MessageRef)
    → run (error_body opcode) payload ≡ ok message
    → (b : ℕ) × (payload ≡ b ∷ []) × (error (record { code = b }) ≡ message)
unfolding error_body expect_len
error_body-ok opcode [] message h = cc
error_body-ok opcode (b ∷ []) message h = (b, refl, cc)
error_body-ok opcode (b ∷ c ∷ p) message h = absurd (ground arith)

module _ (opcode : Opcode) (payload : Bytes) (ok_p : AllBytes payload) where
  Sound-empty :
      (made : MessageRef)
      → opcode ≡ opcode_of made
      → [] ≡ payload_of made
      → IsWireMessage made
      → Sound opcode payload (decode_empty opcode made payload)
  Sound-empty made o p w message h =
      let (same, empty) = decode_empty-ok opcode made message payload h in
      rw (← same) (record { opcode_is = o; payload_is = empty ∙ p; carried = w })

  Sound-word :
      (constructor : ℕ → MessageRef)
      → ((v : ℕ) → opcode ≡ opcode_of (constructor v))
      → ((v : ℕ) → to_be_bytes 2 v ≡ payload_of (constructor v))
      → ((v : ℕ) → IsU16 v → IsWireMessage (constructor v))
      → Sound opcode payload (run (word_body opcode constructor) payload)
  unfolding word_body
  Sound-word constructor o p w message h =
      let (u, s, checked, reading) =
        continue-ok (expect_len opcode payload 2, payload)
          (λ _. read_u16 >>= λ v. pure (constructor v))
          (run-ok (word_body opcode constructor) payload h) in
      let (v, t, got, done) = continue-ok (read_u16 s) (λ v. pure (constructor v)) reading in
      let s_is : payload ≡ s = cc in
      let made : constructor v ≡ message = cc in
      let (split, lt) = Splits-read_u16 payload ok_p (rw (← s_is) at got) in
      rw (← made) (record {
        opcode_is = o v;
        payload_is =
            whole split (no_rest v payload t split.joined (expect_len-ok opcode payload 2 cc))
            ∙ p v;
        carried = w v lt;
      })

  Sound-write : opcode ≡ b'W' → Sound opcode payload (run write_body payload)
  unfolding write_body
  Sound-write o message h =
      let (keyref, s, got, more) =
        continue-ok (read_u16 payload)
          (λ k. decode_value >>= λ v. finish_with (request (RequestRef.write k v)))
          (run-ok write_body payload h) in
      let (value, t, decoded, done) =
        continue-ok (decode_value s) (λ v. finish_with (request (RequestRef.write keyref v)))
          more in
      let (made, empty) = finish_with-ok (request (RequestRef.write keyref value)) message t done in
      let (split, lt) = Splits-read_u16 payload ok_p got in
      let (tail, wire) = Splits-decode_value s split.rest_ok decoded in
      rw (← made) (record {
        opcode_is = o;
        payload_is =
            whole (Splits-concat payload (to_be_bytes 2 keyref) (encode_value value) t s split tail)
              empty;
        carried = (lt, wire);
      })

  Sound-identified : opcode ≡ b'i' → Sound opcode payload (run identified_body payload)
  unfolding identified_body
  Sound-identified o message h =
      let (nodeid, s, got, done) =
        continue-ok (read_str16 payload)
          (λ n. finish_with (ordinary_response (OrdinaryResponseRef.identified n)))
          (run-ok identified_body payload h) in
      let (made, empty) =
        finish_with-ok (ordinary_response (OrdinaryResponseRef.identified nodeid)) message s done in
      let (split, str16) = Splits-read_str16 payload ok_p got in
      rw (← made) (record { opcode_is = o; payload_is = whole split empty; carried = str16 })

  Sound-key : opcode ≡ b's' → Sound opcode payload (run key_body payload)
  unfolding key_body
  Sound-key o message h =
      let (bits, s, got, rest) =
        continue-ok (read_u8 payload)
          (λ b. lift (new_key_flags b) >>= λ f.
            read_str16 >>= λ n. finish_with (ordinary_response (OrdinaryResponseRef.key f n)))
          (run-ok key_body payload h) in
      let (flags, s', valid, more) =
        continue-ok (new_key_flags bits, s)
          (λ f. read_str16 >>= λ n. finish_with (ordinary_response (OrdinaryResponseRef.key f n)))
          rest in
      let (name, t, named, done) =
        continue-ok (read_str16 s')
          (λ n. finish_with (ordinary_response (OrdinaryResponseRef.key flags n))) more in
      let (made, empty) =
        finish_with-ok (ordinary_response (OrdinaryResponseRef.key flags name)) message t done in
      let s_is : s ≡ s' = cc in
      let split = Splits-read_u8 payload ok_p got in
      let (flags_is, lt) = new_key_flags-ok bits split.bytes_ok.0 {flags = flags} cc in
      let (tail, str16) = Splits-read_str16 s split.rest_ok (rw (← s_is) at named) in
      rw (← made, flags_is)
        (record {
          opcode_is = o;
          payload_is =
              whole (Splits-concat payload (bits ∷ []) (bytes16 name) t s split tail) empty;
          carried = (lt, str16);
        })

  Sound-value :
      (is_written : Bool)
      → opcode ≡ (if is_written then b'w' else b'g')
      → Sound opcode payload (run (value_body is_written) payload)
  unfolding value_body
  Sound-value is_written o message h =
      let (value, t, decoded, done) =
        continue-ok (decode_value payload) (λ v. finish_with (value_response is_written v))
          (run-ok (value_body is_written) payload h) in
      let (made, empty) = finish_with-ok (value_response is_written value) message t done in
      let (split, wire) = Splits-decode_value payload ok_p decoded in
      rw (← made) (value_response-Fits opcode payload is_written value o (whole split empty) wire)

  Sound-caps : opcode ≡ b':' → Sound opcode payload (run caps_body payload)
  unfolding caps_body
  Sound-caps o message h =
      let (raw, s, got, rest) =
        continue-ok (read_str16 payload)
          (λ r. lift (parse r) >>= λ c. finish_with (compatibility_response c))
          (run-ok caps_body payload h) in
      let (caps, t, parsed, done) =
        continue-ok (parse raw, s) (λ c. finish_with (compatibility_response c)) rest in
      let (made, empty) = finish_with-ok (compatibility_response caps) message t done in
      let s_is : s ≡ t = cc in
      let (split, str16) = Splits-read_str16 payload ok_p got in
      let parsed' : parse raw ≡ ok caps = cc in
      let raw_is : raw ≡ caps.raw = sym (parse_raw raw parsed') in
      rw (← made) (record {
        opcode_is = o;
        payload_is = whole split (s_is ∙ empty) ∙ ap bytes16 raw_is;
        carried = rw (← raw_is) (str16, parsed');
      })

  Sound-error : opcode ≡ b'@' → Sound opcode payload (run (error_body opcode) payload)
  Sound-error o message h =
      let (b, p, made) = error_body-ok opcode payload message h in
      rw (← made) (record { opcode_is = o; payload_is = p; carried = (rw p at ok_p).0 })

decode-Sound :
    (opcode : Opcode) (payload : Bytes)
    → AllBytes payload
    → Sound opcode payload (decode opcode payload)
unfolding decode
decode-Sound opcode payload ok_p =
    Sound-if b'P' opcode payload _ _
      (λ e. Sound-empty opcode payload ok_p (request RequestRef.ping) e refl tt)
      (Sound-if b'I' opcode payload _ _
        (λ e. Sound-empty opcode payload ok_p (request RequestRef.identify) e refl tt)
        (Sound-if b'C' opcode payload _ _
          (λ e. Sound-empty opcode payload ok_p (request RequestRef.get_keytab_len) e refl tt)
          (Sound-if b'S' opcode payload _ _
            (λ e.
              Sound-word opcode payload ok_p (λ k. request (RequestRef.get_key k)) (λ v. e)
                (λ v. refl) (λ v lt. lt))
            (Sound-if b'G' opcode payload _ _
              (λ e.
                Sound-word opcode payload ok_p (λ k. request (RequestRef.get k)) (λ v. e)
                  (λ v. refl) (λ v lt. lt))
              (Sound-if b'N' opcode payload _ _
                (λ e.
                  Sound-word opcode payload ok_p (λ k. request (RequestRef.observe k)) (λ v. e)
                    (λ v. refl) (λ v lt. lt))
                (Sound-if b'U' opcode payload _ _
                  (λ e.
                    Sound-word opcode payload ok_p (λ k. request (RequestRef.unobserve k)) (λ v. e)
                      (λ v. refl) (λ v lt. lt))
                  (Sound-if b'W' opcode payload _ _ (λ e. Sound-write opcode payload ok_p e)
                    (Sound-if b'?' opcode payload _ _
                      (λ e. Sound-empty opcode payload ok_p (compatibility_request) e refl tt)
                      (Sound-if b'k' opcode payload _ _
                        (λ e.
                          Sound-empty opcode payload ok_p (ordinary_response OrdinaryResponseRef.ok)
                            e refl tt)
                        (Sound-if b'i' opcode payload _ _
                          (λ e. Sound-identified opcode payload ok_p e)
                          (Sound-if b'c' opcode payload _ _
                            (λ e.
                              Sound-word opcode payload ok_p
                                (λ c. ordinary_response (OrdinaryResponseRef.keytab_len c)) (λ v. e)
                                (λ v. refl) (λ v lt. lt))
                            (Sound-if b's' opcode payload _ _ (λ e. Sound-key opcode payload ok_p e)
                              (Sound-if b'g' opcode payload _ _
                                (λ e. Sound-value opcode payload ok_p false e)
                                (Sound-if b'w' opcode payload _ _
                                  (λ e. Sound-value opcode payload ok_p true e)
                                  (Sound-if b':' opcode payload _ _
                                    (λ e. Sound-caps opcode payload ok_p e)
                                    (Sound-if b'@' opcode payload _ _
                                      (λ e. Sound-error opcode payload ok_p e)
                                      (Sound-if b'!' opcode payload _ _
                                        (λ e.
                                          Sound-word opcode payload ok_p (changed) (λ v. e)
                                            (λ v. refl) (λ v lt. lt))
                                        (λ message h. cc))))))))))))))))))

-- What is decoded fits: its opcode and its wire form are the opcode and the payload.
pub decode-Fits :
    (opcode : Opcode) (payload : Bytes) (message : MessageRef)
    → AllBytes payload
    → decode opcode payload ≡ ok message
    → Fits opcode payload message
decode-Fits opcode payload message ok_p h = decode-Sound opcode payload ok_p message h
