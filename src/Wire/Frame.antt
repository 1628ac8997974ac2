-- ===== src/Wire/Frame.antt =====
-- crates/qup-core/src/types/frame.rs (header and view) and crates/qup-core/src/parser/frame.rs
-- (`parse_frame`, also behind `Parser::parse_frame`).
pub mod Layout
pub mod Sum
use qup.Prelude.{
  ℕ, zero, suc, ◌+◌, ◌-◌, ◌≡◌, not, Option, none, some, [], ◌∷◌, Bytes, Result, ok, err, ◌>>=◌,
  ◌>>◌, length, drop, ltb, leb, ◌==◌, if◌then◌else◌,
}
use qup.Word.{from_be_bytes}
use qup.Wire.Error.{
  WireDirection, Opcode, FrameError, truncated, length_mismatch, checksum_mismatch,
}
use qup.Wire.Opcode.{validate}
use qup.Wire.Checksum.{frame_sum}

-- FRAME_OVERHEAD
abbrev pub frame_overhead : ℕ
frame_overhead = 4

pub record FrameHeader : Type 0 where
  pub opcode : Opcode
  pub payload_len : ℕ
  pub checksum : ℕ

pub record FrameView : Type 0 where
  pub header : FrameHeader
  pub payload : Bytes

-- FrameView::new(FrameHeader::new(opcode, payload_len, checksum), payload)
abbrev pub new_view : Opcode → ℕ → ℕ → Bytes → FrameView
new_view opcode payload_len checksum payload = record {
  header = record { opcode = opcode; payload_len = payload_len; checksum = checksum };
  payload = payload;
}

-- FrameHeader::frame_len and FrameView::frame_len
abbrev pub header_frame_len : FrameHeader → ℕ
header_frame_len header = header.payload_len + frame_overhead

abbrev pub frame_len : FrameView → ℕ
frame_len view = header_frame_len view.header

-- frame.split_last()
unfoldable pub split_last : Bytes → Option (ℕ × Bytes)
split_last [] = none
split_last (b ∷ []) = some (b, [])
split_last (b ∷ c ∷ bs) = elim (split_last (c ∷ bs)) [
  | none ↦ none
  | some (last, init) ↦ some (last, b ∷ init)
]

-- bytes.get(3..)
abbrev get_from : ℕ → Bytes → Option Bytes
get_from n bs = if leb n (length bs) then some (drop n bs) else none

-- the two `let … else` at the end of `parse_frame`
view_without_checksum : Opcode → ℕ → Option (ℕ × Bytes) → Result FrameView FrameError
view_without_checksum opcode len none = err truncated
view_without_checksum opcode len (some (checksum, without_checksum)) =
    elim (get_from 3 without_checksum) [
      | none ↦ err truncated
      | some payload ↦ ok (new_view opcode len checksum payload)
    ]

parse_checked : WireDirection → Bytes → Opcode → ℕ → Result FrameView FrameError
parse_checked direction frame opcode len =
    let payload_len = length frame - frame_overhead in
    let sum = frame_sum frame in
    if not (payload_len == len)
    then err (length_mismatch len payload_len)
    else if not (sum == 0)
    then err (checksum_mismatch sum)
    else (do validate opcode direction; view_without_checksum opcode len (split_last frame))

-- `frame.get(..3)` and its conversion to an array
parse_header : WireDirection → Bytes → Result FrameView FrameError
parse_header direction (opcode_byte ∷ length_hi ∷ length_lo ∷ rest) =
    let len = from_be_bytes (length_hi ∷ length_lo ∷ []) in
    parse_checked direction (opcode_byte ∷ length_hi ∷ length_lo ∷ rest) opcode_byte len
parse_header direction _ = err truncated

unfoldable pub parse_frame : WireDirection → Bytes → Result FrameView FrameError
unfolding parse_header parse_checked view_without_checksum split_last from_be_bytes
parse_frame direction frame =
    if ltb (length frame) frame_overhead then err truncated else parse_header direction frame
