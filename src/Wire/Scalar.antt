-- ===== src/Wire/Scalar.antt =====
-- crates/qup-core/src/types/scalar.rs. `KeyFlags(u8)` is its byte; `new` is the only way to one.
pub mod Flags
use Prim.Native.Nat.{bit_and, bit_or}
use qup.Prelude.{
  ℕ, ◌-◌, ◌<◌, ◌≡◌, ◌↔◌, refl, Bool, true, false, not, Result, ok, err, ◌==◌, if◌then◌else◌, ltb,
  arith, passes_below, passes_below_at,
}
use qup.Word.{IsByte}
use qup.Wire.Error.{PayloadError, invalid_bool, invalid_key_flags}

unfoldable pub decode_bool : ℕ → Result Bool PayloadError
decode_bool byte =
    if byte == 0x00 then ok false else if byte == 0x01 then ok true else err (invalid_bool byte)

abbrev pub KeyFlags : Type 0
KeyFlags = ℕ

abbrev pub readable_bit : ℕ
readable_bit = 0b001

abbrev pub writable_bit : ℕ
writable_bit = 0b010

abbrev pub observable_bit : ℕ
observable_bit = 0b100

abbrev pub valid_mask : ℕ
valid_mask = bit_or (bit_or readable_bit writable_bit) observable_bit

-- !mask on u8
abbrev pub bit_not : ℕ → ℕ
bit_not mask = 255 - mask

unfoldable pub new_key_flags : ℕ → Result KeyFlags PayloadError
new_key_flags bits =
    if bit_and bits (bit_not valid_mask) == 0 then ok bits else err (invalid_key_flags bits)

unfoldable pub is_readable : KeyFlags → Bool
is_readable flags = not (bit_and flags readable_bit == 0)

unfoldable pub is_writable : KeyFlags → Bool
is_writable flags = not (bit_and flags writable_bit == 0)

unfoldable pub is_observable : KeyFlags → Bool
is_observable flags = not (bit_and flags observable_bit == 0)
