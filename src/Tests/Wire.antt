-- ===== src/Tests/Wire.antt =====
-- Tests of crates/qup-core.
use qup.Prelude.{
  ℕ, ◌≡◌, refl, true, [], ◌∷◌, ◌++◌, Bytes, ok, err, length, take, drop, ltb, arith, if◌then◌else◌,
  take-append-drop, length-take, sym, inl, inr, Bool-cases,
}
use qup.Prelude.Exec.{Exec}
use qup.Word.{contains, from_be_bytes}
use qup.Wire.Error.{client_to_node, node_to_client, invalid_direction}
use qup.Wire.Utf8.{from_utf8}
use qup.Wire.Opcode.{validate, class, expected_ordinary_response}
use qup.Wire.Opcode.Legal.{verdict, validate-verdict}
use qup.Wire.Checksum.{frame_sum, compute_checksum}
use qup.Wire.Frame.{new_view, parse_frame}
use qup.Wire.Cursor.{read_u16, read_str16, finish}
use qup.Wire.Cursor.Inverse.{IsStr16}
use qup.Wire.Caps.{parse, check_pair}
use qup.Wire.Message.{decode, expect_len, word_body, caps_body}
use qup.Wire.Message.Types.{
  RequestRef, OrdinaryResponseRef, MessageRef, request, ordinary_response, compatibility_response,
}
use qup.Wire.Message.Encoding.{opcode_of, payload_of}
use qup.Wire.Message.Decoding.{decode-payload_of}
use qup.Wire.Message.Decoding.Sound.{Fits, decode-Fits}
use qup.Wire.Reader.{ByteRead, read_frame}
use qup.Wire.Reader.Agreement.{Outcome, read_frame-Outcome}

abbrev led : Bytes
led = b'l' ∷ b'e' ∷ b'd' ∷ []

abbrev led_key : MessageRef
led_key = ordinary_response (OrdinaryResponseRef.key 7 led)

led-IsStr16 : IsStr16 led
unfolding contains from_utf8
led-IsStr16 = record { fits = omega arith; no_nul = refl; utf8 = refl }

decodes_caps :
    decode b':' (0x00 ∷ 0x05 ∷ b'N' ∷ b'k' ∷ b'U' ∷ b'k' ∷ b'!' ∷ [])
    ≡ ok (
        compatibility_response
          (record { raw = b'N' ∷ b'k' ∷ b'U' ∷ b'k' ∷ b'!' ∷ []; supports_changed = true }))
unfolding decode caps_body read_str16 finish parse check_pair class expected_ordinary_response
    from_be_bytes contains from_utf8
decodes_caps = refl

rejects_wrong_direction :
    parse_frame client_to_node (0x6b ∷ 0x00 ∷ 0x00 ∷ 0x95 ∷ [])
    ≡ err (invalid_direction 0x6b client_to_node)
unfolding parse_frame frame_sum validate
rejects_wrong_direction = refl

validate-verdict_example : validate b'P' node_to_client ≡ verdict b'P' node_to_client
validate-verdict_example = validate-verdict b'P' node_to_client (omega arith)

decode-payload_of_example : decode (opcode_of led_key) (payload_of led_key) ≡ ok led_key
decode-payload_of_example = decode-payload_of led_key (omega arith, led-IsStr16)

decodes_getkey : decode b'S' (0x00 ∷ 0x01 ∷ []) ≡ ok (request (RequestRef.get_key 1))
unfolding decode word_body expect_len read_u16 from_be_bytes
decodes_getkey = refl

decode-Fits_example : Fits b'S' (0x00 ∷ 0x01 ∷ []) (request (RequestRef.get_key 1))
decode-Fits_example =
    decode-Fits b'S' (0x00 ∷ 0x01 ∷ []) (request (RequestRef.get_key 1)) (omega arith)
      decodes_getkey

-- A stream in memory, as `SliceReader` of the tests in crates/qup-core/src/io/sync.rs.
data TestError : Type 0 where
  unexpected_eof : TestError

slice_read_exact : ℕ → Exec Bytes TestError Bytes
slice_read_exact n bytes =
    if ltb (length bytes) n then (err unexpected_eof, []) else (ok (take n bytes), drop n bytes)

slice_fills :
    (n : ℕ) (r r' bytes : Bytes)
    → slice_read_exact n r ≡ (ok bytes, r')
    → (length bytes ≡ n) × (r ≡ bytes ++ r')
unfolding slice_read_exact
slice_fills n r r' bytes h = elim (Bool-cases (ltb (length r) n)) [
  | inl short ↦ absurd (ground arith)
  | inr enough ↦
      let b : bytes ≡ take n r = ground arith in
      let t : r' ≡ drop n r = ground arith in
      rw (b, t) (length-take n r (ground arith), sym (take-append-drop n r))
]

abbrev slice_reader : ByteRead Bytes TestError
slice_reader = record { read_exact = slice_read_exact; unread = λ r. r; fills = slice_fills }

-- GETKEY 1 with its checksum, and one byte of the next frame.
abbrev two_frames : Bytes
two_frames = 0x53 ∷ 0x00 ∷ 0x02 ∷ 0x00 ∷ 0x01 ∷ 0xaa ∷ 0x50 ∷ []

reads_one_frame :
    read_frame slice_reader client_to_node 8 two_frames
    ≡ (ok (new_view 0x53 2 0xaa (0x00 ∷ 0x01 ∷ [])), 0x50 ∷ [])
unfolding read_frame slice_read_exact compute_checksum from_be_bytes validate
reads_one_frame = refl

read_frame-Outcome_example :
    Outcome slice_reader client_to_node 8 two_frames
      (read_frame slice_reader client_to_node 8 two_frames).0
      (read_frame slice_reader client_to_node 8 two_frames).1
read_frame-Outcome_example =
    read_frame-Outcome slice_reader client_to_node 8 two_frames (omega arith)
