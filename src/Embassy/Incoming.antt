-- ===== src/Embassy/Incoming.antt =====
-- `IncomingRequest` and `Server::read_request` of crates/qup-embassy/src/lib.rs. `MAX_STR` is
-- `max_str`. The string scratch and the discard buffers are written before they are read, and are
-- left out.
pub mod Tracking
pub mod Values
pub mod Kinds
pub mod Requests
pub mod Arrival
use qup.Prelude.{
  ℕ, zero, suc, ◌-◌, ◌<◌, ◌≤◌, ◌≡◌, Bool, true, false, not, Option, none, some, [], ◌∷◌, Bytes,
  Result, ok, err, map_err, length, ltb, leb, min, ◌==◌, if◌then◌else◌,
}
use qup.Prelude.Exec.{Exec, pure, raise, lift, ◌>>=◌, ◌>>◌}
use qup.Word.{from_be_bytes, i64_from_be_bytes}
use qup.Wire.Codes
use qup.Wire.Error.{
  Opcode, client_to_node, PayloadError, invalid_direction, invalid_length,
  internal_length_exceeds_payload, trailing_bytes, invalid_bool,
}
use qup.Wire.Opcode.{validate}
use qup.Wire.Reader.{byte_at}
use qup.Wire.Value.{ValueKind, kind_from_byte}
use qup.Client.Session.{ByteStream}
use qup.Embassy.Error.{ServerError, protocol, frame, payload}
use qup.Embassy.Key.{WireValueRef}
use qup.Embassy.Sum.{new_sum, add_slice}
use qup.Embassy.Stream.{
  Request, Tracked, read_exact_tracked, discard_exact, finish_checksum, discard_chunk,
}
use qup.Embassy.Validator.{decode_wire_string, Checking, check_chunk, payload_error, new_validator}

pub data IncomingRequest : Type 0 where
  ping identify get_caps get_keytab_len : IncomingRequest
  get_key get observe unobserve : (keyref : ℕ) → IncomingRequest
  write : (keyref : ℕ) → WireValueRef → IncomingRequest

-- The `if remaining < width { … } else { … }` of a refused value.
abbrev pub length_fault : ℕ → ℕ → PayloadError
length_fault remaining width =
    if ltb remaining width
    then internal_length_exceeds_payload
    else trailing_bytes (remaining - width)

abbrev pub decode_flag : ℕ → Result Bool PayloadError
decode_flag byte =
    if byte == 0x00 then ok false else if byte == 0x01 then ok true else err (invalid_bool byte)

module _ {S E : Type 0} (stream : ByteStream S E) where
  abbrev pub Reads : Type 0
  Reads = Tracked stream IncomingRequest

  abbrev pub checked : {A : Type 0} → Result A PayloadError → Tracked stream A
  checked r = lift (map_err (λ e. protocol (payload e)) r)

  -- Discard what is left of the payload, check the sum, and refuse the payload.
  unfoldable pub refuse_payload : ℕ → PayloadError → Reads
  unfolding discard_exact finish_checksum
  refuse_payload remaining error = do
    discard_exact stream remaining
    finish_checksum stream
    raise (protocol (payload error))

  unfoldable pub read_empty_request : Opcode → ℕ → IncomingRequest → Reads
  unfolding refuse_payload finish_checksum
  read_empty_request opcode payload_len request =
      if not (payload_len == 0)
      then refuse_payload payload_len (invalid_length opcode 0 payload_len)
      else (do finish_checksum stream; pure request)

  unfoldable pub read_keyref_request : Opcode → ℕ → (ℕ → IncomingRequest) → Reads
  unfolding refuse_payload finish_checksum read_exact_tracked
  read_keyref_request opcode payload_len constructor =
      if not (payload_len == 2)
      then refuse_payload payload_len (invalid_length opcode 2 payload_len)
      else (do
        keyref ← read_exact_tracked stream 2
        finish_checksum stream
        pure (constructor (from_be_bytes keyref)))

  unfoldable pub read_bool_value : ℕ → ℕ → Reads
  unfolding refuse_payload finish_checksum read_exact_tracked
  read_bool_value keyref remaining =
      if not (remaining == 1) then refuse_payload remaining (length_fault remaining 1) else (do
        value ← read_exact_tracked stream 1
        finish_checksum stream
        decoded ← checked (decode_flag (byte_at value 0))
        pure (write keyref (WireValueRef.bool decoded)))

  unfoldable pub read_i64_value : ℕ → ℕ → Reads
  unfolding refuse_payload finish_checksum read_exact_tracked
  read_i64_value keyref remaining =
      if not (remaining == 8) then refuse_payload remaining (length_fault remaining 8) else (do
        value ← read_exact_tracked stream 8
        finish_checksum stream
        pure (write keyref (WireValueRef.i64 (i64_from_be_bytes value))))

  -- The `while` loop over a string that does not fit: each round takes at least one byte.
  unfoldable pub check_rounds : ℕ → ℕ → Checking → Tracked stream Checking
  unfolding read_exact_tracked check_chunk
  check_rounds zero remaining checking = pure checking
  check_rounds (suc fuel) remaining checking =
      let chunk_len = min remaining discard_chunk in
      let again = check_rounds fuel (remaining - chunk_len) in
      if remaining == 0
      then pure checking
      else (read_exact_tracked stream chunk_len >>= λ chunk. again (check_chunk chunk checking))

  abbrev pub oversized : ℕ → Option PayloadError → Result IncomingRequest PayloadError
  oversized keyref (some error) = err error
  oversized keyref none = ok (write keyref WireValueRef.oversized_str)

  unfoldable pub read_oversized : ℕ → ℕ → Reads
  unfolding check_rounds finish_checksum payload_error
  read_oversized keyref string_len = do
    checking ← check_rounds string_len string_len (none, new_validator)
    finish_checksum stream
    checked (oversized keyref (payload_error checking))

  unfoldable pub read_short : ℕ → ℕ → Reads
  unfolding finish_checksum read_exact_tracked decode_wire_string
  read_short keyref string_len = do
    string_scratch ← read_exact_tracked stream string_len
    finish_checksum stream
    value ← checked (decode_wire_string string_scratch)
    pure (write keyref (WireValueRef.str value))

  -- What follows the length of a string.
  unfoldable pub read_string : ℕ → ℕ → ℕ → ℕ → Reads
  unfolding refuse_payload read_short read_oversized
  read_string max_str keyref remaining_string_bytes string_len =
      if not (remaining_string_bytes == string_len)
      then refuse_payload remaining_string_bytes (length_fault remaining_string_bytes string_len)
      else if leb string_len max_str
      then read_short keyref string_len
      else read_oversized keyref string_len

  unfoldable pub read_str_value : ℕ → ℕ → ℕ → Reads
  unfolding refuse_payload read_exact_tracked read_string
  read_str_value max_str keyref remaining =
      if ltb remaining 2 then refuse_payload remaining internal_length_exceeds_payload else (do
        len_bytes ← read_exact_tracked stream 2
        read_string max_str keyref (remaining - 2) (from_be_bytes len_bytes))

  -- The `match` on the kind of the value.
  unfoldable pub read_kind : ℕ → ℕ → ℕ → Result ValueKind PayloadError → Reads
  unfolding read_bool_value read_i64_value read_str_value refuse_payload
  read_kind max_str keyref remaining (ok ValueKind.bool) = read_bool_value keyref remaining
  read_kind max_str keyref remaining (ok ValueKind.i64) = read_i64_value keyref remaining
  read_kind max_str keyref remaining (ok ValueKind.str) = read_str_value max_str keyref remaining
  read_kind max_str keyref remaining (err error) = refuse_payload remaining error

  unfoldable pub read_write_request : ℕ → ℕ → Reads
  unfolding refuse_payload read_exact_tracked read_kind kind_from_byte
  read_write_request max_str payload_len =
      if ltb payload_len 3
      then refuse_payload payload_len (invalid_length Codes.write 3 payload_len)
      else (do
        keyref_bytes ← read_exact_tracked stream 2
        kind ← read_exact_tracked stream 1
        read_kind max_str (from_be_bytes keyref_bytes) (payload_len - 3)
            (kind_from_byte (byte_at kind 0)))

  -- The `match` on the opcode.
  unfoldable pub read_payload_of : ℕ → Opcode → ℕ → Reads
  unfolding read_empty_request read_keyref_request read_write_request
  read_payload_of max_str opcode payload_len =
      if opcode == Codes.ping
      then read_empty_request opcode payload_len ping
      else if opcode == Codes.identify
      then read_empty_request opcode payload_len identify
      else if opcode == Codes.getkeytablen
      then read_empty_request opcode payload_len get_keytab_len
      else if opcode == Codes.getcaps
      then read_empty_request opcode payload_len get_caps
      else if opcode == Codes.getkey
      then read_keyref_request opcode payload_len get_key
      else if opcode == Codes.get
      then read_keyref_request opcode payload_len get
      else if opcode == Codes.observe
      then read_keyref_request opcode payload_len observe
      else if opcode == Codes.unobserve
      then read_keyref_request opcode payload_len unobserve
      else if opcode == Codes.write
      then read_write_request max_str payload_len
      else raise (protocol (frame (invalid_direction opcode client_to_node)))

  -- What follows the header.
  unfoldable pub read_body : ℕ → Bytes → S → Result IncomingRequest (ServerError E) × S
  unfolding read_payload_of validate new_sum from_be_bytes
  read_body max_str header s = elim (validate (byte_at header 0) client_to_node) [
    | err error ↦ (err (protocol (frame error)), s)
    | ok _ ↦
        let opcode = byte_at header 0 in
        let payload_len = from_be_bytes (byte_at header 1 ∷ byte_at header 2 ∷ []) in
        let (request, after) =
          read_payload_of max_str opcode payload_len
            (record { source = s; sum = new_sum opcode payload_len }) in
        (request, after.source)
  ]

  abbrev pub after_read : ℕ → Result Bytes E × S → Result IncomingRequest (ServerError E) × S
  after_read max_str (ok header, s) = read_body max_str header s
  after_read max_str (err e, s) = (err (ServerError.read e), s)

  unfoldable pub read_request : ℕ → Exec S (ServerError E) IncomingRequest
  unfolding read_body
  read_request max_str s = after_read max_str (stream.read_exact 3 s)
