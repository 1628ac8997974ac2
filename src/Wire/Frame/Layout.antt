-- ===== src/Wire/Frame/Layout.antt =====
-- The checks of `parse_frame` on a frame in parts: opcode, two length bytes, payload, checksum.
use qup.Prelude.{
  ℕ, ◌+◌, ◌-◌, ◌*◌, ◌≡◌, refl, false, not, some, [], ◌∷◌, ◌++◌, Bytes, Result, ok, err, ◌>>◌,
  length, length-append, arith, ltb, le→ltb, ◌==◌, if◌then◌else◌,
}
use qup.Word.{from_be_bytes}
use qup.Wire.Error.{WireDirection, Opcode, FrameError, length_mismatch, checksum_mismatch}
use qup.Wire.Opcode.{validate}
use qup.Wire.Checksum.{frame_sum}
use qup.Wire.Frame.{
  FrameView, new_view, split_last, view_without_checksum, parse_checked, parse_header, parse_frame,
}

-- opcode, length bytes, payload, checksum byte
abbrev pub assemble : Opcode → ℕ → ℕ → Bytes → ℕ → Bytes
assemble opcode hi lo payload checksum = opcode ∷ hi ∷ lo ∷ (payload ++ checksum ∷ [])

-- The bytes are those of one whole frame: an opcode, two length bytes, the high one first, as many
-- bytes of payload as they say, and a checksum byte.
pub record IsWholeFrame (bytes : Bytes) : Type 0 where
  pub opcode : Opcode
  pub hi : ℕ
  pub lo : ℕ
  pub payload : Bytes
  pub checksum : ℕ
  pub layout : bytes ≡ opcode ∷ hi ∷ lo ∷ (payload ++ checksum ∷ [])
  pub announced : length payload ≡ hi * 256 + lo

-- Length, checksum and opcode are checked in this order.
abbrev pub judge : WireDirection → Opcode → ℕ → ℕ → Bytes → ℕ → Result FrameView FrameError
judge direction opcode hi lo payload checksum =
    let len = hi * 256 + lo in
    let sum = frame_sum (assemble opcode hi lo payload checksum) in
    if not (length payload == len)
    then err (length_mismatch len (length payload))
    else if not (sum == 0)
    then err (checksum_mismatch sum)
    else (do validate opcode direction; ok (new_view opcode len checksum payload))

split_last_concat : (b : ℕ) (xs : Bytes) → split_last (xs ++ b ∷ []) ≡ some (b, xs)
unfolding split_last
split_last_concat b [] = refl
split_last_concat b (x ∷ []) = refl
split_last_concat b (x ∷ y ∷ ys) = rw (split_last_concat b (y ∷ ys))

from_be_bytes_two : (hi lo : ℕ) → from_be_bytes (hi ∷ lo ∷ []) ≡ hi * 256 + lo
unfolding from_be_bytes
from_be_bytes_two hi lo = omega arith

view_without_checksum_lem :
    (opcode hi lo len checksum : ℕ) (payload : Bytes)
    → view_without_checksum opcode len (some (checksum, opcode ∷ hi ∷ lo ∷ payload))
      ≡ ok (new_view opcode len checksum payload)
unfolding view_without_checksum
view_without_checksum_lem opcode hi lo len checksum payload = ground arith

module _ (direction : WireDirection) (opcode hi lo : ℕ) (payload : Bytes) (checksum : ℕ) where
  length-assemble : length (assemble opcode hi lo payload checksum) ≡ length payload + 4
  length-assemble = omega (arith, length-append {0} payload (checksum ∷ []))

  four_bytes : ltb (length (assemble opcode hi lo payload checksum)) 4 ≡ false
  four_bytes =
      le→ltb (length (assemble opcode hi lo payload checksum)) 4 (omega (arith, length-assemble))

  parse_checked-judge :
      parse_checked direction (assemble opcode hi lo payload checksum) opcode (hi * 256 + lo)
      ≡ judge direction opcode hi lo payload checksum
  unfolding parse_checked
  parse_checked-judge =
      let short : length payload + 4 - 4 ≡ length payload = omega arith in
      rw (length-assemble, short, split_last_concat checksum (opcode ∷ hi ∷ lo ∷ payload))
        (rw (view_without_checksum_lem opcode hi lo (hi * 256 + lo) checksum payload))

  -- `parse_frame` on a frame of four bytes at least.
  pub parse_frame-judge :
      parse_frame direction (assemble opcode hi lo payload checksum)
      ≡ judge direction opcode hi lo payload checksum
  unfolding parse_frame
  parse_frame-judge =
      rw four_bytes (unfold parse_header in rw (from_be_bytes_two hi lo) parse_checked-judge)
