-- ===== src/Wire/Utf8.antt =====
-- `core::str::from_utf8` as crates/qup-core/src/types/cursor.rs and crates/qup-embassy use it:
-- the bytes of a `&str`, or a `Utf8Error` with `valid_up_to` and `error_len`. Validation goes byte
-- by byte: the state says which range the next byte of the current character must lie in.
use qup.Prelude.{
  ℕ, zero, suc, ◌+◌, ◌≡◌, refl, arith, ◌||◌, Option, none, some, [], ◌∷◌, Bytes, Result, ok, err,
  ltb, ◌==◌, within, if◌then◌else◌,
}

pub record Utf8Error : Type 0 where
  pub valid_up_to : ℕ
  pub error_len : Option ℕ

-- `expects lo hi after read`: `read` bytes of a character are there, the next one must lie in
-- `lo ..= hi`, and `after` continuation bytes follow it.
pub data Utf8State : Type 0 where
  boundary : Utf8State
  expects : ℕ → ℕ → ℕ → ℕ → Utf8State

-- The first byte of a character.
unfoldable pub lead : ℕ → Option Utf8State
lead b =
    if ltb b 0x80
    then some boundary
    else if within 0xC2 0xDF b
    then some (expects 0x80 0xBF 0 1)
    else if b == 0xE0
    then some (expects 0xA0 0xBF 1 1)
    else if within 0xE1 0xEC b || within 0xEE 0xEF b
    then some (expects 0x80 0xBF 1 1)
    else if b == 0xED
    then some (expects 0x80 0x9F 1 1)
    else if b == 0xF0
    then some (expects 0x90 0xBF 2 1)
    else if within 0xF1 0xF3 b
    then some (expects 0x80 0xBF 2 1)
    else if b == 0xF4
    then some (expects 0x80 0x8F 2 1)
    else none

unfoldable pub advance : Utf8State → ℕ → Option Utf8State
unfolding lead
advance boundary b = lead b
advance (expects lo hi zero read) b = if within lo hi b then some boundary else none
advance (expects lo hi (suc after) read) b =
    if within lo hi b then some (expects 0x80 0xBF after (read + 1)) else none

-- How many bytes of the current character are there.
abbrev pub bytes_read : Utf8State → ℕ
bytes_read boundary = 0
bytes_read (expects lo hi after read) = read

-- The length of the invalid sequence when the next byte does not fit.
abbrev pub bad_len : Utf8State → ℕ
bad_len boundary = 1
bad_len (expects lo hi after read) = read

-- `valid_up_to` after a byte that led from `s` to `s'`.
abbrev pub valid_after : ℕ → Utf8State → Utf8State → ℕ
valid_after n s boundary = n + bytes_read s + 1
valid_after n s (expects lo hi after read) = n

-- At the end of the input.
abbrev pub at_end : ℕ → Utf8State → Result (Unit {0}) Utf8Error
at_end n boundary = ok tt
at_end n (expects lo hi after read) = err (record { valid_up_to = n; error_len = none })

unfoldable pub run_utf8_validation : ℕ → Utf8State → Bytes → Result (Unit {0}) Utf8Error
unfolding advance
run_utf8_validation n s [] = at_end n s
run_utf8_validation n s (b ∷ bs) = elim (advance s b) [
  | none ↦ err (record { valid_up_to = n; error_len = some (bad_len s) })
  | some s' ↦ run_utf8_validation (valid_after n s s') s' bs
]

-- The `&str` of a slice is the slice itself.
unfoldable pub from_utf8 : Bytes → Result Bytes Utf8Error
unfolding run_utf8_validation
from_utf8 bs = elim (run_utf8_validation 0 boundary bs) [ ok _ ↦ ok bs | err e ↦ err e ]

pub from_utf8_same : (bs : Bytes) {str : Bytes} → from_utf8 bs ≡ ok str → str ≡ bs
unfolding from_utf8
from_utf8_same bs h = ground arith

-- The bytes of a Rust `str`.
abbrev pub IsUtf8 : Bytes → Type 0
IsUtf8 bs = from_utf8 bs ≡ ok bs

euro : IsUtf8 (0xE2 ∷ 0x82 ∷ 0xAC ∷ b'!' ∷ [])
unfolding from_utf8
euro = refl

surrogate_rejected :
    from_utf8 (b'a' ∷ 0xED ∷ 0xA0 ∷ 0x80 ∷ [])
    ≡ err (record { valid_up_to = 1; error_len = some 1 })
unfolding from_utf8
surrogate_rejected = refl

cut_short : from_utf8 (b'a' ∷ 0xE2 ∷ 0x82 ∷ []) ≡ err (record { valid_up_to = 1; error_len = none })
unfolding from_utf8
cut_short = refl
