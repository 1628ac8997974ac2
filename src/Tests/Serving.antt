-- ===== src/Tests/Serving.antt =====
-- Runs of the request reader, the string validator and the notifications of
-- crates/qup-embassy/src/lib.rs.
use qup.Prelude.{◌++◌, ◌≡◌, ◌≤◌, refl, true, none, List, [], ◌∷◌, Bytes, ok, length, arith}
use qup.Word.{AllBytes, ℤ, pos}
use qup.Wire.Utf8.{IsUtf8}
use qup.Wire.Value.{ValueRef, decode_value}
use qup.Embassy.Text.{encode_string, decode_value-encode_string}
use qup.Client.Session.{ByteStream}
use qup.Embassy.Perm.{Perm}
use qup.Embassy.Key.{Key, WireValueRef, i64_value}
use qup.Embassy.Sum.{join}
use qup.Embassy.Validator.{payload_error, check_chunk, new_validator, Utf8StreamValidator}
use qup.Embassy.Validator.Chunks.{Found, check_chunks, check_chunks-Found, check_chunks-le}
use qup.Embassy.Incoming
use qup.Embassy.Incoming.{IncomingRequest, read_request}
use qup.Embassy.Incoming.Arrival.{Arrives, read_request-Arrives}
use qup.Embassy.Serving.{Serving, flush_notifications, handle_request}
use qup.Embassy.Serving.Answers.{Answers}
use qup.Embassy.Serving.Handling.{answer_code, handle_request-Answers}
use qup.Embassy.Serving.Erased.{erased_key}
use qup.Embassy.Serving.Notices.{Flushes, flush_notifications-Flushes}
use qup.Tests.Script.{Peer, script_stream}

-- A WRITE of the string "hi" to key 1, and the first byte of the next frame.
abbrev script : Bytes
script = 0x57 ∷ 0x00 ∷ 0x07 ∷ 0x00 ∷ 0x01 ∷ 0x03 ∷ 0x00 ∷ 0x02 ∷ b'h' ∷ b'i' ∷ 0xcb ∷ 0x50 ∷ []

script-AllBytes : AllBytes script
script-AllBytes = omega arith

abbrev peer : ByteStream Peer (Unit {0})
peer = script_stream script script-AllBytes

abbrev opened : Peer
opened = record { position = 0; received = [] }

abbrev written : Peer
written = record { position = 11; received = [] }

reads_string :
    read_request peer 8 opened
    ≡ (ok (Incoming.write 1 (WireValueRef.str (b'h' ∷ b'i' ∷ []))), written)
unfolding read_request qup.Embassy.Sum.finish_sum qup.Embassy.Sum.add_slice qup.Word.contains
    qup.Wire.Utf8.from_utf8
reads_string = refl

reads_oversized :
    read_request peer 1 opened ≡ (ok (Incoming.write 1 WireValueRef.oversized_str), written)
unfolding read_request qup.Embassy.Sum.finish_sum qup.Embassy.Sum.add_slice qup.Word.contains
    qup.Wire.Utf8.from_utf8
reads_oversized = refl

read_request-Arrives_example :
    Arrives peer 1 (Incoming.write 1 WireValueRef.oversized_str) opened written
read_request-Arrives_example =
    read_request-Arrives peer 1 (Incoming.write 1 WireValueRef.oversized_str) opened written
      reads_oversized

-- The euro sign, cut in two.
abbrev chunks : List Bytes
chunks = (0xE2 ∷ 0x82 ∷ []) ∷ (0xAC ∷ []) ∷ []

accepts_euro : payload_error (check_chunks chunks (none, new_validator)) ≡ none
unfolding payload_error check_chunk qup.Word.contains qup.Wire.Utf8.from_utf8
accepts_euro = refl

check_chunks-Found_example :
    Found (join chunks) (payload_error (check_chunks chunks (none, new_validator)))
check_chunks-Found_example = check_chunks-Found chunks

abbrev half : List Bytes
half = (b'a' ∷ 0xE2 ∷ 0x82 ∷ []) ∷ []

abbrev half_tail : Utf8StreamValidator
half_tail = 0xE2 ∷ 0x82 ∷ []

keeps_half : check_chunks half (none, new_validator) ≡ (none, half_tail)
unfolding check_chunk qup.Word.contains qup.Wire.Utf8.from_utf8
keeps_half = refl

check_chunks-le_example : length half_tail ≤ 3
check_chunks-le_example = check_chunks-le half half_tail keeps_half

abbrev key : Key ℤ
key = record {
  name = b'k' ∷ [];
  keyref = 1;
  value = pos 5;
  change_signal = true;
  attached = true;
  notifier_signal = true;
  generation = 4;
}

abbrev watching : Serving Peer (Key ℤ)
watching = record {
  stream = opened;
  keys = key ∷ [];
  observed = true ∷ [];
  seen_generation = 3 ∷ [];
}

abbrev told : Serving Peer (Key ℤ)
told = (flush_notifications peer (erased_key i64_value Perm.rwn) true watching).1

tells : flush_notifications peer (erased_key i64_value Perm.rwn) true watching ≡ (ok tt, told)
unfolding flush_notifications erased_key qup.Word.to_be_bytes
tells = refl

flush_notifications-Flushes_example :
    Flushes peer (erased_key i64_value Perm.rwn) 0 (key ∷ []) watching told
flush_notifications-Flushes_example =
    flush_notifications-Flushes peer (erased_key i64_value Perm.rwn) watching told tells

abbrev answered : Serving Peer (Key ℤ)
answered =
    (handle_request peer (erased_key i64_value Perm.rwn) true (b'n' ∷ []) (Incoming.unobserve 1)
      watching).1

answers_unobserve :
    handle_request peer
      (erased_key i64_value Perm.rwn)
      true
      (b'n' ∷ [])
      (Incoming.unobserve 1)
      watching
    ≡ (ok tt, answered)
unfolding handle_request erased_key
answers_unobserve = refl

sends_ok_frame : answered.stream.received ≡ 0x6b ∷ 0x00 ∷ 0x00 ∷ 0x95 ∷ []
unfolding handle_request erased_key qup.Word.to_be_bytes qup.Wire.Checksum.compute_checksum
sends_ok_frame = refl

handle_request-Answers_example :
    Answers peer
      (erased_key i64_value Perm.rwn)
      true
      (answer_code (Incoming.unobserve 1))
      watching.stream
      answered.stream
handle_request-Answers_example =
    handle_request-Answers peer (erased_key i64_value Perm.rwn) true (b'n' ∷ [])
      (Incoming.unobserve 1) watching answered answers_unobserve

abbrev hi : Bytes
hi = b'h' ∷ b'i' ∷ []

abbrev hi_encoded : Bytes
hi_encoded = 0x03 ∷ 0x00 ∷ 0x02 ∷ b'h' ∷ b'i' ∷ []

encodes_hi : encode_string hi ≡ ok hi_encoded
unfolding encode_string qup.Word.contains qup.Word.to_be_bytes
encodes_hi = refl

hi-IsUtf8 : IsUtf8 hi
unfolding qup.Wire.Utf8.from_utf8
hi-IsUtf8 = refl

decode_value-encode_string_example :
    decode_value (hi_encoded ++ 0xff ∷ []) ≡ (ok (ValueRef.str hi), 0xff ∷ [])
decode_value-encode_string_example =
    decode_value-encode_string hi hi_encoded (0xff ∷ []) hi-IsUtf8 encodes_hi
