-- ===== src/Word.antt =====
-- Machine words of the wire format: `u8` wrapping arithmetic, and the big-endian byte order of
-- `to_be_bytes` and `from_be_bytes` (PROTOCOL.md, "Scalars"). The laws are in `Word/BigEndian`
-- and `Word/Sum`.
pub mod BigEndian
pub mod Sum
pub mod Signed
use mathlib.Core.List.{foldl}
use qup.Prelude.{
  ℕ, zero, suc, ◌+◌, ◌-◌, ◌*◌, ◌/◌, ◌%◌, ◌^◌, ◌<◌, ◌≡◌, refl, Bool, true, false, ◌||◌, [], ◌∷◌,
  ◌++◌, Bytes, All, ltb, ◌==◌, if◌then◌else◌,
}

abbrev pub IsByte : ℕ → Type 0
IsByte b = b < 256

abbrev pub AllBytes : Bytes → Type 0
AllBytes = All IsByte

-- a.wrapping_add(b) and a.wrapping_sub(b) on u8
abbrev pub wrapping_add : ℕ → ℕ → ℕ
wrapping_add a b = (a + b) % 256

abbrev pub wrapping_sub : ℕ → ℕ → ℕ
wrapping_sub a b = (a + 256 - b) % 256

-- bytes.iter().fold(acc, |acc, byte| acc.wrapping_add(*byte))
unfoldable pub fold_wrapping : ℕ → Bytes → ℕ
fold_wrapping = foldl wrapping_add

-- The `width` bytes of a word, the most significant first.
unfoldable pub to_be_bytes : ℕ → ℕ → Bytes
to_be_bytes zero v = []
to_be_bytes (suc width) v = to_be_bytes width (v / 256) ++ v % 256 ∷ []

from_be_onto : ℕ → Bytes → ℕ
from_be_onto acc [] = acc
from_be_onto acc (b ∷ bs) = from_be_onto (acc * 256 + b) bs

unfoldable pub from_be_bytes : Bytes → ℕ
unfolding from_be_onto
from_be_bytes = from_be_onto 0

-- u8::from(value)
abbrev pub u8_of_bool : Bool → ℕ
u8_of_bool true = 1
u8_of_bool false = 0

-- bytes.contains(&value)
unfoldable pub contains : Bytes → ℕ → Bool
contains [] value = false
contains (b ∷ bs) value = b == value || contains bs value

-- `i64` values; `negsuc n` is -(n + 1).
pub data ℤ : Type 0 where
  pos : ℕ → ℤ
  negsuc : ℕ → ℤ

-- The values that an `i64` can hold.
abbrev pub IsI64 : ℤ → Type 0
IsI64 (pos n) = n < 2 ^ 63
IsI64 (negsuc n) = n < 2 ^ 63

-- Two's complement: the 64-bit pattern of a value, and the value of a pattern.
abbrev pub pattern_of : ℤ → ℕ
pattern_of (pos n) = n
pattern_of (negsuc n) = 2 ^ 64 - 1 - n

abbrev pub value_of : ℕ → ℤ
value_of v = if ltb v (2 ^ 63) then pos v else negsuc (2 ^ 64 - 1 - v)

-- i64::to_be_bytes and i64::from_be_bytes
unfoldable pub i64_to_be_bytes : ℤ → Bytes
i64_to_be_bytes z = to_be_bytes 8 (pattern_of z)

unfoldable pub i64_from_be_bytes : Bytes → ℤ
i64_from_be_bytes bs = value_of (from_be_bytes bs)

be_order : to_be_bytes 2 0x1234 ≡ 0x12 ∷ 0x34 ∷ []
unfolding to_be_bytes
be_order = refl

minus_two : i64_from_be_bytes (i64_to_be_bytes (negsuc 1)) ≡ negsuc 1
unfolding i64_from_be_bytes i64_to_be_bytes from_be_bytes to_be_bytes
minus_two = refl
