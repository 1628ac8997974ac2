-- ===== src/Tests/Server.antt =====
-- Runs of the server of crates/qup-embassy/src/lib.rs against a scripted peer.
use qup.Prelude.{◌≡◌, refl, [], ◌∷◌, ◌++◌, Bytes, ok, arith}
use qup.Word.{AllBytes, to_be_bytes}
use qup.Wire.Codes
use qup.Wire.Checksum.{compute_checksum}
use qup.Client.Encode.{build_frame}
use qup.Client.Session.{ByteStream}
use qup.Embassy.Sum.{add_slice}
use qup.Embassy.Stream.{
  Request, Consumed, read_exact_tracked, discard_exact, discard_exact-Consumed, send_frame,
  send_frame-build_frame,
}
use qup.Tests.Script.{Peer, script_stream}

-- The payload and the checksum of a GETKEY request.
abbrev script : Bytes
script = 0x00 ∷ 0x01 ∷ 0xaa ∷ []

script-AllBytes : AllBytes script
script-AllBytes = omega arith

abbrev peer : ByteStream Peer (Unit {0})
peer = script_stream script script-AllBytes

abbrev before : Request Peer
before = record { source = record { position = 0; received = [] }; sum = 0x55 }

abbrev after : Request Peer
after = record { source = record { position = 2; received = [] }; sum = 0x56 }

discards : discard_exact peer 2 before ≡ (ok tt, after)
unfolding discard_exact read_exact_tracked add_slice script-AllBytes
discards = refl

discard_exact-Consumed_example : Consumed peer 2 before after
discard_exact-Consumed_example = discard_exact-Consumed peer 2 before after discards

abbrev start : Peer
start = record { position = 0; received = [] }

abbrev finish : Peer
finish = record { position = 0; received = 0x6b ∷ 0x00 ∷ 0x00 ∷ 0x95 ∷ [] }

sends_ok : send_frame peer Codes.ok [] start ≡ (ok tt, finish)
unfolding send_frame to_be_bytes compute_checksum script-AllBytes
sends_ok = refl

send_frame-build_frame_example :
    (bytes : Bytes) × (build_frame Codes.ok [] ≡ ok bytes)
    × (peer.sent finish ≡ peer.sent start ++ bytes)
send_frame-build_frame_example = send_frame-build_frame peer Codes.ok [] start finish sends_ok
