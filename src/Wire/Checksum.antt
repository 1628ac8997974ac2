-- ===== src/Wire/Checksum.antt =====
-- crates/qup-core/src/parser/checksum.rs
use qup.Prelude.{ℕ, ◌+◌, ◌-◌, ◌%◌, ◌^◌, ◌≡◌, refl, [], ◌∷◌, Bytes, length, arith}
use qup.Word.{wrapping_add, wrapping_sub, fold_wrapping, to_be_bytes}
use qup.Word.Sum.{total, fold_wrapping-total}
use qup.Wire.Error.{Opcode}
use qup.Wire.Codes

unfoldable pub frame_sum : Bytes → ℕ
unfolding fold_wrapping
frame_sum frame = fold_wrapping 0 frame

-- `payload.len() as u16` keeps the low sixteen bits.
unfoldable pub compute_checksum : Opcode → Bytes → ℕ
unfolding fold_wrapping to_be_bytes
compute_checksum opcode payload =
    let len = length payload % 2 ^ 16 in
    let acc = fold_wrapping (wrapping_add 0 opcode) (to_be_bytes 2 len) in
    wrapping_sub 0 (fold_wrapping acc payload)

pub frame_sum-total : (frame : Bytes) → frame_sum frame ≡ total frame % 256
unfolding frame_sum
frame_sum-total frame = omega (arith, fold_wrapping-total 0 frame (omega arith))

pub compute_checksum-total :
    (opcode : Opcode) (payload : Bytes)
    → compute_checksum opcode payload
      ≡ (256 - (opcode + total (to_be_bytes 2 (length payload % 2 ^ 16)) + total payload) % 256)
        % 256
unfolding compute_checksum
compute_checksum-total opcode payload =
    let len = length payload % 2 ^ 16 in
    let acc = fold_wrapping (wrapping_add 0 opcode) (to_be_bytes 2 len) in
    omega (
      arith,
      fold_wrapping-total (wrapping_add 0 opcode) (to_be_bytes 2 len) (omega arith),
      fold_wrapping-total acc payload (
          omega
            (arith, fold_wrapping-total (wrapping_add 0 opcode) (to_be_bytes 2 len) (omega arith))),
    )

spec_examples :
    (compute_checksum Codes.getcaps [] ≡ 0xc1)
    × (compute_checksum Codes.ping [] ≡ 0xb0)
    × (compute_checksum Codes.key (0x07 ∷ 0x00 ∷ 0x03 ∷ b'l' ∷ b'e' ∷ b'd' ∷ []) ≡ 0x48)
unfolding compute_checksum
spec_examples = (refl, refl, refl)
