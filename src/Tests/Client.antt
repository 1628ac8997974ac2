-- ===== src/Tests/Client.antt =====
-- Tests of crates/qup/src/client.rs.
use qup.Prelude.{◌≡◌, refl, [], ◌∷◌, Bytes, ok, arith}
use qup.Word.{negsuc, to_be_bytes, i64_to_be_bytes}
use qup.Wire.Codes
use qup.Wire.Error.{client_to_node}
use qup.Wire.Opcode.{validate}
use qup.Wire.Checksum.{frame_sum, compute_checksum}
use qup.Wire.Value.{ValueRef}
use qup.Wire.Frame.{new_view, parse_frame}
use qup.Wire.Message.{decode}
use qup.Wire.Message.Types.{RequestRef, request}
use qup.Client.Encode.{Value, build_frame, write_payload}
use qup.Client.Encode.Frames.{view_of, parse_frame-build_frame, Rebuilds, parse_frame-Rebuilds}
use qup.Client.Encode.Values.{decode-write_payload}

abbrev getkey_frame : Bytes
getkey_frame = 0x53 ∷ 0x00 ∷ 0x02 ∷ 0x00 ∷ 0x01 ∷ 0xaa ∷ []

builds_getkey : build_frame Codes.getkey (0x00 ∷ 0x01 ∷ []) ≡ ok getkey_frame
unfolding build_frame compute_checksum to_be_bytes
builds_getkey = refl

getkey_legal : validate Codes.getkey client_to_node ≡ ok tt
unfolding validate
getkey_legal = refl

parse_frame-build_frame_example :
    parse_frame client_to_node getkey_frame ≡ ok (view_of Codes.getkey (0x00 ∷ 0x01 ∷ []))
parse_frame-build_frame_example =
    parse_frame-build_frame client_to_node Codes.getkey (0x00 ∷ 0x01 ∷ []) getkey_frame
      builds_getkey getkey_legal

parses_getkey :
    parse_frame client_to_node getkey_frame ≡ ok (new_view 0x53 2 0xaa (0x00 ∷ 0x01 ∷ []))
unfolding parse_frame frame_sum validate
parses_getkey = refl

parse_frame-Rebuilds_example :
    Rebuilds client_to_node getkey_frame (new_view 0x53 2 0xaa (0x00 ∷ 0x01 ∷ []))
parse_frame-Rebuilds_example =
    parse_frame-Rebuilds client_to_node getkey_frame (new_view 0x53 2 0xaa (0x00 ∷ 0x01 ∷ []))
      (omega arith) parses_getkey

abbrev minus_two : Bytes
minus_two = 0 ∷ 4 ∷ 2 ∷ 255 ∷ 255 ∷ 255 ∷ 255 ∷ 255 ∷ 255 ∷ 255 ∷ 254 ∷ []

encodes_minus_two : write_payload 4 (Value.i64 (negsuc 1)) ≡ ok minus_two
unfolding write_payload to_be_bytes i64_to_be_bytes
encodes_minus_two = refl

decode-write_payload_example :
    decode Codes.write minus_two ≡ ok (request (RequestRef.write 4 (ValueRef.i64 (negsuc 1))))
decode-write_payload_example =
    decode-write_payload 4 (Value.i64 (negsuc 1)) minus_two (omega arith) (omega arith)
      encodes_minus_two
