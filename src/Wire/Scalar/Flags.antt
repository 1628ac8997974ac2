-- ===== src/Wire/Scalar/Flags.antt =====
-- Key flags as three bits.
use qup.Prelude.{
  ℕ, ◌<◌, ◌/◌, ◌%◌, ◌≡◌, refl, Bool, true, false, not, ok, err, ◌==◌, ltb, if◌then◌else◌, arith,
  passes_below, passes_below_at,
}
use qup.Word.{IsByte}
use qup.Wire.Error.{invalid_key_flags}
use qup.Wire.Scalar.{
  KeyFlags, valid_mask, bit_not, new_key_flags, is_readable, is_writable, is_observable,
}
use Prim.Native.Nat.{bit_and}

iff : Bool → Bool → Bool
iff true b = b
iff false b = not b

iff_sound : (a b : Bool) → iff a b ≡ true → a ≡ b
unfolding iff
iff_sound true b h = ground arith
iff_sound false b h = ground arith

mask_table : passes_below 256 (λ b. iff (bit_and b (bit_not valid_mask) == 0) (ltb b 8)) ≡ true
unfolding passes_below iff
mask_table = refl

readable_table : passes_below 256 (λ b. iff (is_readable b) (b % 2 == 1)) ≡ true
unfolding passes_below iff is_readable
readable_table = refl

writable_table : passes_below 256 (λ b. iff (is_writable b) (b / 2 % 2 == 1)) ≡ true
unfolding passes_below iff is_writable
writable_table = refl

observable_table : passes_below 256 (λ b. iff (is_observable b) (b / 4 % 2 == 1)) ≡ true
unfolding passes_below iff is_observable
observable_table = refl

module _ (bits : ℕ) (h : IsByte bits) where
  -- The bits outside the mask are zero exactly for the values below 8.
  pub new_key_flags-lt :
      new_key_flags bits ≡ (if ltb bits 8 then ok bits else err (invalid_key_flags bits))
  unfolding new_key_flags
  new_key_flags-lt = rw (
      iff_sound _ _ (
        passes_below_at 256 (λ b. iff (bit_and b (bit_not valid_mask) == 0) (ltb b 8)) bits
          mask_table h))

  pub is_readable_bit : is_readable bits ≡ (bits % 2 == 1)
  is_readable_bit =
      iff_sound _ _
        (passes_below_at 256 (λ b. iff (is_readable b) (b % 2 == 1)) bits readable_table h)

  pub is_writable_bit : is_writable bits ≡ (bits / 2 % 2 == 1)
  is_writable_bit =
      iff_sound _ _
        (passes_below_at 256 (λ b. iff (is_writable b) (b / 2 % 2 == 1)) bits writable_table h)

  pub is_observable_bit : is_observable bits ≡ (bits / 4 % 2 == 1)
  is_observable_bit =
      iff_sound _ _
        (passes_below_at 256 (λ b. iff (is_observable b) (b / 4 % 2 == 1)) bits observable_table h)

  pub new_key_flags-ok :
      {flags : KeyFlags} → new_key_flags bits ≡ ok flags → (flags ≡ bits) × (bits < 8)
  new_key_flags-ok e = ground (arith, new_key_flags-lt)
