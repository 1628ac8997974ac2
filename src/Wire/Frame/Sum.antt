-- ===== src/Wire/Frame/Sum.antt =====
-- The checksum byte of a frame is right exactly when the frame sums up to zero.
use qup.Prelude.{ℕ, ◌+◌, ◌-◌, ◌*◌, ◌%◌, ◌≡◌, ◌↔◌, [], ◌∷◌, ◌++◌, Bytes, length, arith}
use qup.Word.{IsByte, AllBytes, to_be_bytes}
use qup.Word.Sum.{total, total-append}
use qup.Wire.Checksum.{frame_sum, compute_checksum, frame_sum-total, compute_checksum-total}
use qup.Wire.Frame.Layout.{assemble}

AllBytes-last : (xs : Bytes) (b : ℕ) → AllBytes (xs ++ b ∷ []) → IsByte b
AllBytes-last [] b h = h.0
AllBytes-last (x ∷ xs) b h = AllBytes-last xs b h.1

module _ (opcode hi lo : ℕ) (payload : Bytes) (checksum : ℕ) where
  pub frame_sum-assemble :
      frame_sum (assemble opcode hi lo payload checksum)
      ≡ (opcode + hi + lo + total payload + checksum) % 256
  frame_sum-assemble = omega (
    arith,
    frame_sum-total (assemble opcode hi lo payload checksum),
    total-append payload (checksum ∷ []),
  )

  module _ (ok_f : AllBytes (assemble opcode hi lo payload checksum))
      (len : length payload ≡ hi * 256 + lo) where
    checksum-IsByte : IsByte checksum
    checksum-IsByte = AllBytes-last payload checksum ok_f.1.1.1

    compute_checksum-sum :
        compute_checksum opcode payload ≡ (256 - (opcode + hi + lo + total payload) % 256) % 256
    unfolding to_be_bytes
    compute_checksum-sum = omega (arith, compute_checksum-total opcode payload)

    pub frame_sum_iff :
        (frame_sum (assemble opcode hi lo payload checksum) ≡ 0)
        ↔ (compute_checksum opcode payload ≡ checksum)
    frame_sum_iff = (
      λ z. omega (arith, frame_sum-assemble, compute_checksum-sum, checksum-IsByte),
      λ e. omega (arith, frame_sum-assemble, compute_checksum-sum, checksum-IsByte),
    )
