-- ===== src/Embassy/Text.antt =====
-- `impl QupValue for String<N>` in crates/qup-embassy/src/lib.rs. The string is that of the `heapless`
-- crate: `push_str` on an empty one gives the string, or fails when it does not fit.
use qup.Prelude.{
  ◌^◌, ◌<◌, ◌≡◌, ◌∙◌, ap, false, ◌∷◌, ◌++◌, Bytes, Result, ok, err, map_err, length, ltb,
  same_bytes, if◌then◌else◌, arith, ◌>>◌,
}
use qup.Word.{contains, to_be_bytes}
use qup.Wire.Utf8.{IsUtf8}
use qup.Wire.Value.{ValueRef, decode_value, str_tag}
use qup.Wire.Value.Encoding.{encode_value, decode_value-encode_value}
use qup.Embassy.Key.{
  WireValueRef, oversized_str, WireValueError, type_mismatch, value_too_large, string_contains_nul,
  QupValue,
}

unfoldable pub validate_string : Bytes → Result (Unit {0}) WireValueError
validate_string value =
    if contains value 0x00
    then err string_contains_nul
    else if ltb 65535 (length value)
    then err value_too_large
    else ok tt

-- `u16::try_from(self.len()).map_err(…)?` and what is written
abbrev pub encode_checked : Bytes → Result Bytes WireValueError
encode_checked value =
    if ltb (length value) (2 ^ 16)
    then ok (str_tag ∷ (to_be_bytes 2 (length value) ++ value))
    else err value_too_large

unfoldable pub encode_string : Bytes → Result Bytes WireValueError
unfolding validate_string
encode_string value = validate_string value >> encode_checked value

module _ (push_str : Bytes → Result Bytes (Unit {0})) where
  unfoldable pub decode_string : WireValueRef → Result Bytes WireValueError
  decode_string (WireValueRef.str value) = map_err (λ e. type_mismatch) (push_str value)
  decode_string oversized_str = err type_mismatch
  decode_string (WireValueRef.bool value) = err type_mismatch
  decode_string (WireValueRef.i64 value) = err type_mismatch

  unfoldable pub string_value : QupValue Bytes
  unfolding validate_string encode_string decode_string
  string_value = record {
    same = same_bytes;
    validate = validate_string;
    encode = encode_string;
    decode = decode_string;
  }

encode_string-ok :
    (value bytes : Bytes)
    → encode_string value ≡ ok bytes
    → (contains value 0x00 ≡ false)
      × (length value < 2 ^ 16)
      × (bytes ≡ encode_value (ValueRef.str value))
unfolding encode_string validate_string
encode_string-ok value bytes h = ground arith

-- A string that a key encodes is decoded by the protocol's decoder to the same string, whatever
-- stands behind it.
pub decode_value-encode_string :
    (value bytes rest : Bytes)
    → IsUtf8 value
    → encode_string value ≡ ok bytes
    → decode_value (bytes ++ rest) ≡ (ok (ValueRef.str value), rest)
decode_value-encode_string value bytes rest utf8 h =
    let (no_nul, fits, bytes_is) = encode_string-ok value bytes h in
    ap (λ b. decode_value (b ++ rest)) bytes_is
    ∙ decode_value-encode_value (ValueRef.str value) rest
        (record { fits = fits; no_nul = no_nul; utf8 = utf8 })
