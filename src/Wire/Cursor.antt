-- ===== src/Wire/Cursor.antt =====
-- crates/qup-core/src/types/cursor.rs. A cursor is its unread tail; a read is a stateful
-- computation, so that the tail after an error is there too.
pub mod Reads
pub mod Inverse
use qup.Prelude.{
  ℕ, zero, suc, Option, none, some, [], ◌∷◌, Bytes, Result, ok, err, map_err, length, take, drop,
  is_empty, ltb, ◌==◌, if◌then◌else◌,
}
use qup.Prelude.Exec.{Exec, pure, raise, lift, ◌>>=◌}
use qup.Word.{ℤ, from_be_bytes, i64_from_be_bytes, contains}
use qup.Wire.Utf8.{from_utf8}
use qup.Wire.Error.{
  PayloadError, internal_length_exceeds_payload, trailing_bytes, string_contains_nul, invalid_utf8,
}

abbrev pub PayloadCursor : Type 0
PayloadCursor = Bytes

abbrev pub Read : Type 0 → Type 0
Read A = Exec PayloadCursor PayloadError A

abbrev pub remaining_len : PayloadCursor → ℕ
remaining_len remaining = length remaining

unfoldable pub finish : Read (Unit {0})
finish remaining =
    if is_empty remaining
    then (ok tt, remaining)
    else (err (trailing_bytes (length remaining)), remaining)

unfoldable pub read_bytes : ℕ → Read Bytes
read_bytes len remaining =
    if ltb (length remaining) len
    then (err internal_length_exceeds_payload, remaining)
    else (ok (take len remaining), drop len remaining)

-- `take_array`: the conversion to an array fails on a slice of another length.
unfoldable pub take_array : ℕ → Read Bytes
unfolding read_bytes
take_array len = do
  bytes ← read_bytes len
  if length bytes == len then pure bytes else raise internal_length_exceeds_payload

-- `array[0]`; an array of one byte is not empty.
abbrev pub first : Bytes → ℕ
first [] = 0
first (b ∷ bs) = b

unfoldable pub read_u8 : Read ℕ
unfolding take_array
read_u8 = do bytes ← take_array 1; pure (first bytes)

unfoldable pub read_u16 : Read ℕ
unfolding take_array
read_u16 = do bytes ← take_array 2; pure (from_be_bytes bytes)

unfoldable pub read_u32 : Read ℕ
unfolding take_array
read_u32 = do bytes ← take_array 4; pure (from_be_bytes bytes)

unfoldable pub read_u64 : Read ℕ
unfolding take_array
read_u64 = do bytes ← take_array 8; pure (from_be_bytes bytes)

unfoldable pub read_i64 : Read ℤ
unfolding take_array
read_i64 = do bytes ← take_array 8; pure (i64_from_be_bytes bytes)

unfoldable pub read_bytes16 : Read Bytes
unfolding read_u16 read_bytes
read_bytes16 = do len ← read_u16; read_bytes len

unfoldable pub read_str16 : Read Bytes
unfolding read_bytes16
read_str16 = do
  bytes ← read_bytes16
  if contains bytes 0x00
      then raise string_contains_nul
      else lift (map_err invalid_utf8 (from_utf8 bytes))
