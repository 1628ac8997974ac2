-- ===== src/Wire/Cursor/Reads.antt =====
-- What each read gives on a payload that begins with an encoding, with anything behind it.
use qup.Prelude.{
  ℕ, ◌<◌, ◌^◌, ◌≡◌, refl, false, [], ◌∷◌, ◌++◌, append_assoc, Bytes, ok, length, length-append,
  take_append, drop_append, arith, le→ltb, ==_refl,
}
use qup.Word.{ℤ, IsI64, to_be_bytes, i64_to_be_bytes, contains}
use qup.Word.BigEndian.{length-to_be_bytes, from_be_bytes-to_be_bytes}
use qup.Word.Signed.{length-i64_to_be_bytes, i64_from_be_bytes-i64_to_be_bytes}
use qup.Wire.Utf8.{IsUtf8}
use qup.Wire.Cursor.{read_bytes, take_array, read_u8, read_u16, read_i64, read_bytes16, read_str16}

pub read_bytes-append :
    (bytes rest : Bytes) → read_bytes (length bytes) (bytes ++ rest) ≡ (ok bytes, rest)
unfolding read_bytes
read_bytes-append bytes rest =
    rw
      (le→ltb (length (bytes ++ rest)) (length bytes) (omega (arith, length-append {0} bytes rest)))
      (rw (take_append bytes rest, drop_append bytes rest))

pub take_array-append :
    (n : ℕ) (bytes rest : Bytes)
    → length bytes ≡ n
    → take_array n (bytes ++ rest) ≡ (ok bytes, rest)
unfolding take_array
take_array-append n bytes rest e =
    rw (← e) (rw (read_bytes-append bytes rest, ==_refl (length bytes)))

pub read_u8-cons : (b : ℕ) (rest : Bytes) → read_u8 (b ∷ rest) ≡ (ok b, rest)
unfolding read_u8
read_u8-cons b rest = rw (take_array-append 1 (b ∷ []) rest refl)

pub read_u16-append :
    (v : ℕ) (rest : Bytes) → v < 2 ^ 16 → read_u16 (to_be_bytes 2 v ++ rest) ≡ (ok v, rest)
unfolding read_u16
read_u16-append v rest h =
    rw (take_array-append 2 (to_be_bytes 2 v) rest (length-to_be_bytes 2 v))
      (rw (from_be_bytes-to_be_bytes 2 v h))

pub read_i64-append :
    (z : ℤ) (rest : Bytes) → IsI64 z → read_i64 (i64_to_be_bytes z ++ rest) ≡ (ok z, rest)
unfolding read_i64
read_i64-append z rest h =
    rw (take_array-append 8 (i64_to_be_bytes z) rest (length-i64_to_be_bytes z))
      (rw (i64_from_be_bytes-i64_to_be_bytes z h))

-- The wire form of a `str16` or `bytes16`.
abbrev pub bytes16 : Bytes → Bytes
bytes16 bytes = to_be_bytes 2 (length bytes) ++ bytes

pub read_bytes16-append :
    (bytes rest : Bytes)
    → length bytes < 2 ^ 16
    → read_bytes16 (bytes16 bytes ++ rest) ≡ (ok bytes, rest)
unfolding read_bytes16
read_bytes16-append bytes rest h =
    rw (append_assoc (to_be_bytes 2 (length bytes)) bytes rest)
      (rw (read_u16-append (length bytes) (bytes ++ rest) h) (read_bytes-append bytes rest))

-- A string is read back if it is what `str16` admits.
pub read_str16-append :
    (bytes rest : Bytes)
    → length bytes < 2 ^ 16
    → contains bytes 0x00 ≡ false
    → IsUtf8 bytes
    → read_str16 (bytes16 bytes ++ rest) ≡ (ok bytes, rest)
unfolding read_str16
read_str16-append bytes rest h no_nul utf8 =
    rw (read_bytes16-append bytes rest h) (rw no_nul (rw utf8))
