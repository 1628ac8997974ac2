-- ===== src/Embassy/Incoming/Values.antt =====
-- The value of a WRITE request, as the server reads it.
use qup.Prelude.{
  ℕ, ◌≤◌, ◌<◌, ◌≡◌, refl, sym, ap, ◌∙◌, inl, inr, Bool, false, Bool-cases, Option, none, some, [],
  ◌∷◌, append-nil, Bytes, Result, ok, err, length, ◌==◌, arith,
}
use qup.Prelude.Exec.{continue-ok, pure, ◌>>=◌, ◌>>◌}
use qup.Word.{contains, i64_from_be_bytes, u8_of_bool}
use qup.Word.Signed.{i64_to_be_bytes-i64_from_be_bytes, i64_from_be_bytes-IsI64}
use qup.Wire.Utf8.{IsUtf8, from_utf8_same, from_utf8}
use qup.Wire.Error.{PayloadError}
use qup.Wire.Reader.{byte_at}
use qup.Wire.Value.{ValueRef, bool_tag, i64_tag}
use qup.Wire.Value.Encoding.{encode_value, IsWireValue}
use qup.Client.Session.{ByteStream}
use qup.Embassy.Error.{ServerError, protocol, payload}
use qup.Embassy.Key.{WireValueRef}
use qup.Embassy.Stream.{Request, read_exact_tracked, finish_checksum}
use qup.Embassy.Validator.{Checking, decode_wire_string, new_validator, payload_error}
use qup.Embassy.Validator.Chunks.{Found, new_validator-Progress, payload_error-Found}
use qup.Embassy.Incoming
use qup.Embassy.Incoming.{
  IncomingRequest, Reads, checked, decode_flag, length_fault, refuse_payload, read_bool_value,
  read_i64_value, check_rounds, oversized, read_oversized, read_short, read_string, read_str_value,
  read_kind,
}
use qup.Embassy.Incoming.Tracking.{
  read_exact_tracked-Got, Finished, more-Finished, finish_checksum-Finished, refuse_payload-never,
  check_rounds-Got, one_byte,
}

-- The value of a request; one that does not fit the scratch is known by its length alone.
abbrev pub Meant : ℕ → WireValueRef → ValueRef → Type 0
Meant max_str (WireValueRef.bool b) value = value ≡ ValueRef.bool b
Meant max_str (WireValueRef.i64 z) value = value ≡ ValueRef.i64 z
Meant max_str (WireValueRef.str bytes) value =
    (value ≡ ValueRef.str bytes) × (length bytes ≤ max_str)
Meant max_str WireValueRef.oversized_str value =
    (bytes : Bytes) × (value ≡ ValueRef.str bytes) × (max_str < length bytes)

module _ {S E : Type 0} (stream : ByteStream S E) (max_str keyref : ℕ) where
  -- What was read makes up a value whose wire form begins with the tag, and it is the request's.
  pub record Value (tag remaining : ℕ) (request : IncomingRequest) (before after : Request S)
      : Type 0 where
    pub bytes : Bytes
    pub finished : Finished stream bytes before after
    pub counted : length bytes ≡ remaining
    pub sent_value : WireValueRef
    pub request_is : request ≡ Incoming.write keyref sent_value
    pub value : ValueRef
    pub meant : Meant max_str sent_value value
    pub carried : IsWireValue value
    pub encoded : tag ∷ bytes ≡ encode_value value

  decode_flag-ok : (byte : ℕ) (b : Bool) → decode_flag byte ≡ ok b → byte ≡ u8_of_bool b
  decode_flag-ok byte b h = ground arith

  abbrev fault : PayloadError → ServerError E
  fault e = protocol (payload e)

  checked-ok :
      {A : Type 0} (r : Result A PayloadError) (a : A) (s s' : Request S)
      → checked stream r s ≡ (ok a, s')
      → (r ≡ ok a) × (s ≡ s')
  checked-ok (ok b) a s s' h = (ground arith, ap (λ p. p.1) h)
  checked-ok (err e) a s s' h = cc

  pub read_bool_value-Value :
      (remaining : ℕ) (request : IncomingRequest) (before after : Request S)
      → read_bool_value stream keyref remaining before ≡ (ok request, after)
      → Value bool_tag remaining request before after
  unfolding read_bool_value
  read_bool_value-Value remaining request before after h = elim (Bool-cases (remaining == 1)) [
    | inr other ↦
        absurd (refuse_payload-never stream remaining _ before after request (rw other at h))
    | inl one ↦
        let (value, r1, read, h1) =
          continue-ok (read_exact_tracked stream 1 before)
            (λ value.
              finish_checksum stream
              >> (checked stream (decode_flag (byte_at value 0)) >>= λ decoded.
                  pure (Incoming.write keyref (WireValueRef.bool decoded))))
            (rw one at h) in
        let (u, r2, finished, h2) =
          continue-ok (finish_checksum stream r1)
            (λ u. checked stream (decode_flag (byte_at value 0)) >>= λ decoded.
              pure (Incoming.write keyref (WireValueRef.bool decoded)))
            h1 in
        let (decoded, r3, flag, h3) =
          continue-ok (checked stream (decode_flag (byte_at value 0)) r2)
            (λ decoded. pure (Incoming.write keyref (WireValueRef.bool decoded))) h2 in
        let (counted, got) = read_exact_tracked-Got stream 1 before r1 value read in
        let (flag_is, same) = checked-ok (decode_flag (byte_at value 0)) decoded r2 r3 flag in
        let last : r2 ≡ after = same ∙ ap (λ p. p.1) h3 in
        let one_is : 1 ≡ remaining = ground arith in
        record {
          bytes = value;
          finished = rw (append-nil value) at (
              more-Finished stream value [] before r1 after got
                (rw last at (finish_checksum-Finished stream r1 r2 finished)));
          counted = counted ∙ one_is;
          sent_value = WireValueRef.bool decoded;
          request_is = ground arith;
          value = ValueRef.bool decoded;
          meant = refl;
          carried = tt;
          encoded =
              ap (λ t. bool_tag ∷ t)
                (one_byte value counted
                  ∙ ap (λ b. b ∷ []) (decode_flag-ok (byte_at value 0) decoded flag_is));
        }
  ]

  pub read_i64_value-Value :
      (remaining : ℕ) (request : IncomingRequest) (before after : Request S)
      → read_i64_value stream keyref remaining before ≡ (ok request, after)
      → Value i64_tag remaining request before after
  unfolding read_i64_value
  read_i64_value-Value remaining request before after h = elim (Bool-cases (remaining == 8)) [
    | inr other ↦
        absurd (refuse_payload-never stream remaining _ before after request (rw other at h))
    | inl eight ↦
        let (value, r1, read, h1) =
          continue-ok (read_exact_tracked stream 8 before)
            (λ value.
              finish_checksum stream
              >> pure (Incoming.write keyref (WireValueRef.i64 (i64_from_be_bytes value))))
            (rw eight at h) in
        let (u, r2, finished, h2) =
          continue-ok (finish_checksum stream r1)
            (λ u. pure (Incoming.write keyref (WireValueRef.i64 (i64_from_be_bytes value)))) h1 in
        let (counted, got) = read_exact_tracked-Got stream 8 before r1 value read in
        let last : r2 ≡ after = ap (λ p. p.1) h2 in
        let eight_is : 8 ≡ remaining = ground arith in
        record {
          bytes = value;
          finished = rw (append-nil value) at (
              more-Finished stream value [] before r1 after got
                (rw last at (finish_checksum-Finished stream r1 r2 finished)));
          counted = counted ∙ eight_is;
          sent_value = WireValueRef.i64 (i64_from_be_bytes value);
          request_is = ground arith;
          value = ValueRef.i64 (i64_from_be_bytes value);
          meant = refl;
          carried = i64_from_be_bytes-IsI64 value got.all counted;
          encoded =
              ap (λ t. i64_tag ∷ t) (sym (i64_to_be_bytes-i64_from_be_bytes value got.all counted));
        }
  ]

  -- The bytes of a string, as they were read.
  pub record Text (string_len : ℕ) (request : IncomingRequest) (before after : Request S)
      : Type 0 where
    pub bytes : Bytes
    pub finished : Finished stream bytes before after
    pub counted : length bytes ≡ string_len
    pub sent_value : WireValueRef
    pub request_is : request ≡ Incoming.write keyref sent_value
    pub meant : Meant max_str sent_value (ValueRef.str bytes)
    pub no_nul : contains bytes 0x00 ≡ false
    pub utf8 : IsUtf8 bytes

  decode_wire_string-ok :
      (bytes value : Bytes)
      → decode_wire_string bytes ≡ ok value
      → (contains bytes 0x00 ≡ false) × (from_utf8 bytes ≡ ok value)
  unfolding decode_wire_string
  decode_wire_string-ok bytes value h = ground arith

  pub read_short-Text :
      (string_len : ℕ) (request : IncomingRequest) (before after : Request S)
      → string_len ≤ max_str
      → read_short stream keyref string_len before ≡ (ok request, after)
      → Text string_len request before after
  unfolding read_short
  read_short-Text string_len request before after le h =
      let (string, r1, read, h1) =
        continue-ok (read_exact_tracked stream string_len before)
          (λ string.
            finish_checksum stream
            >> (checked stream (decode_wire_string string) >>= λ value.
                pure (Incoming.write keyref (WireValueRef.str value))))
          h in
      let (u, r2, finished, h2) =
        continue-ok (finish_checksum stream r1)
          (λ u. checked stream (decode_wire_string string) >>= λ value.
            pure (Incoming.write keyref (WireValueRef.str value)))
          h1 in
      let (value, r3, decoded, h3) =
        continue-ok (checked stream (decode_wire_string string) r2)
          (λ value. pure (Incoming.write keyref (WireValueRef.str value))) h2 in
      let (counted, got) = read_exact_tracked-Got stream string_len before r1 string read in
      let (decoded_is, same) = checked-ok (decode_wire_string string) value r2 r3 decoded in
      let (no_nul, utf8) = decode_wire_string-ok string value decoded_is in
      let value_is : value ≡ string = from_utf8_same string utf8 in
      let last : r2 ≡ after = same ∙ ap (λ p. p.1) h3 in
      record {
        bytes = string;
        finished = rw (append-nil string) at (
            more-Finished stream string [] before r1 after got
              (rw last at (finish_checksum-Finished stream r1 r2 finished)));
        counted = counted;
        sent_value = WireValueRef.str string;
        request_is = rw value_is at (ap (λ p. result_or request p.0) (sym h3));
        meant = (refl, omega (arith, counted));
        no_nul = no_nul;
        utf8 = rw value_is at utf8;
      }
    where
      result_or : IncomingRequest → Result IncomingRequest (ServerError E) → IncomingRequest
      result_or d (ok r) = r
      result_or d (err e) = d

  Found-none :
      (bytes : Bytes) (e : Option PayloadError) (request : IncomingRequest)
      → Found bytes e
      → oversized stream keyref e ≡ ok request
      → (contains bytes 0x00 ≡ false)
        × IsUtf8 bytes
        × (request ≡ Incoming.write keyref WireValueRef.oversized_str)
  Found-none bytes (some e) request found h = cc
  Found-none bytes none request (no_nul, utf8) h = (no_nul, utf8, ground arith)

  pub read_oversized-Text :
      (string_len : ℕ) (request : IncomingRequest) (before after : Request S)
      → max_str < string_len
      → read_oversized stream keyref string_len before ≡ (ok request, after)
      → Text string_len request before after
  unfolding read_oversized
  read_oversized-Text string_len request before after lt h =
      let start : Checking = (none, new_validator) in
      let (checking, r1, rounds, h1) =
        continue-ok (check_rounds stream string_len string_len start before)
          (λ checking.
            finish_checksum stream
            >> checked stream (oversized stream keyref (payload_error checking)))
          h in
      let (u, r2, finished, h2) =
        continue-ok (finish_checksum stream r1)
          (λ u. checked stream (oversized stream keyref (payload_error checking))) h1 in
      let (string, counted, got, progress) =
        check_rounds-Got stream string_len string_len [] start checking before r1 (omega arith)
          new_validator-Progress rounds in
      let (accepted, last) =
        checked-ok (oversized stream keyref (payload_error checking)) request r2 after h2 in
      let (no_nul, utf8, request_is) =
        Found-none string (payload_error checking) request
          (payload_error-Found string checking progress) accepted in
      record {
        bytes = string;
        finished = rw (append-nil string) at (
            more-Finished stream string [] before r1 after got
              (rw last at (finish_checksum-Finished stream r1 r2 finished)));
        counted = counted;
        sent_value = WireValueRef.oversized_str;
        request_is = request_is;
        meant = (string, refl, omega (arith, counted));
        no_nul = no_nul;
        utf8 = utf8;
      }
