-- ===== src/Word/Signed.antt =====
-- The two's-complement bytes of an `i64`.
use qup.Prelude.{ℕ, ◌^◌, ◌<◌, ◌≡◌, sym, ◌∙◌, ap, Bytes, length, arith}
use qup.Word.{
  AllBytes, ℤ, pos, negsuc, IsI64, pattern_of, value_of, i64_to_be_bytes, i64_from_be_bytes,
  from_be_bytes, to_be_bytes,
}
use qup.Word.BigEndian.{
  from_be_bytes-to_be_bytes, from_be_bytes-lt, to_be_bytes-from_be_bytes, length-to_be_bytes,
  to_be_bytes-AllBytes,
}

value_of-pattern_of : (z : ℤ) → IsI64 z → value_of (pattern_of z) ≡ z
value_of-pattern_of (pos n) h = ground arith
value_of-pattern_of (negsuc n) h = ground arith

pattern_of-value_of : (v : ℕ) → v < 2 ^ 64 → pattern_of (value_of v) ≡ v
pattern_of-value_of v h = ground arith

value_of-IsI64 : (v : ℕ) → v < 2 ^ 64 → IsI64 (value_of v)
value_of-IsI64 v h = ground arith

pattern_of-lt : (z : ℤ) → IsI64 z → pattern_of z < 256 ^ 8
pattern_of-lt (pos n) h = omega arith
pattern_of-lt (negsuc n) h = omega arith

-- An `i64` is read back from its bytes.
pub i64_from_be_bytes-i64_to_be_bytes :
    (z : ℤ) → IsI64 z → i64_from_be_bytes (i64_to_be_bytes z) ≡ z
unfolding i64_from_be_bytes i64_to_be_bytes
i64_from_be_bytes-i64_to_be_bytes z h =
    ap value_of (from_be_bytes-to_be_bytes 8 (pattern_of z) (pattern_of-lt z h))
    ∙ value_of-pattern_of z h

-- Eight bytes are written back by the `i64` that they hold.
pub i64_to_be_bytes-i64_from_be_bytes :
    (bs : Bytes) → AllBytes bs → length bs ≡ 8 → i64_to_be_bytes (i64_from_be_bytes bs) ≡ bs
unfolding i64_from_be_bytes i64_to_be_bytes
i64_to_be_bytes-i64_from_be_bytes bs h e =
    ap (to_be_bytes 8) (pattern_of-value_of (from_be_bytes bs) (rw e at (from_be_bytes-lt bs h)))
    ∙ ap (λ n. to_be_bytes n (from_be_bytes bs)) (sym e)
    ∙ to_be_bytes-from_be_bytes bs h

pub i64_from_be_bytes-IsI64 :
    (bs : Bytes) → AllBytes bs → length bs ≡ 8 → IsI64 (i64_from_be_bytes bs)
unfolding i64_from_be_bytes
i64_from_be_bytes-IsI64 bs h e = value_of-IsI64 (from_be_bytes bs) (rw e at (from_be_bytes-lt bs h))

pub length-i64_to_be_bytes : (z : ℤ) → length (i64_to_be_bytes z) ≡ 8
unfolding i64_to_be_bytes
length-i64_to_be_bytes z = length-to_be_bytes 8 (pattern_of z)

pub i64_to_be_bytes-AllBytes : (z : ℤ) → AllBytes (i64_to_be_bytes z)
unfolding i64_to_be_bytes
i64_to_be_bytes-AllBytes z = to_be_bytes-AllBytes 8 (pattern_of z)
