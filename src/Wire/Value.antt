-- ===== src/Wire/Value.antt =====
-- crates/qup-core/src/types/value.rs
pub mod Encoding
use qup.Prelude.{ℕ, Bool, Bytes, Result, ok, err, ◌==◌, if◌then◌else◌}
use qup.Prelude.Exec.{pure, lift, ◌>>=◌}
use qup.Word.{ℤ}
use qup.Wire.Error.{PayloadError, invalid_value_kind}
use qup.Wire.Scalar.{decode_bool}
use qup.Wire.Cursor.{Read, read_u8, read_i64, read_str16}

pub data ValueKind : Type 0 where
  bool i64 str : ValueKind

abbrev pub bool_tag : ℕ
bool_tag = 0x01

abbrev pub i64_tag : ℕ
i64_tag = 0x02

abbrev pub str_tag : ℕ
str_tag = 0x03

-- ValueKind::from_byte and ValueKind::as_byte
unfoldable pub kind_from_byte : ℕ → Result ValueKind PayloadError
kind_from_byte byte =
    if byte == bool_tag
    then ok ValueKind.bool
    else if byte == i64_tag
    then ok ValueKind.i64
    else if byte == str_tag
    then ok ValueKind.str
    else err (invalid_value_kind byte)

unfoldable pub kind_as_byte : ValueKind → ℕ
kind_as_byte ValueKind.bool = bool_tag
kind_as_byte ValueKind.i64 = i64_tag
kind_as_byte ValueKind.str = str_tag

pub data ValueRef : Type 0 where
  bool : Bool → ValueRef
  i64 : ℤ → ValueRef
  str : Bytes → ValueRef

decode_body : ValueKind → Read ValueRef
decode_body ValueKind.bool = do
  byte ← read_u8
  value ← lift (decode_bool byte)
  pure (ValueRef.bool value)
decode_body ValueKind.i64 = do value ← read_i64; pure (ValueRef.i64 value)
decode_body ValueKind.str = do value ← read_str16; pure (ValueRef.str value)

-- ValueRef::decode
unfoldable pub decode_value : Read ValueRef
unfolding decode_body kind_from_byte
decode_value = do byte ← read_u8; kind ← lift (kind_from_byte byte); decode_body kind

unfoldable pub kind_of : ValueRef → ValueKind
kind_of (ValueRef.bool value) = ValueKind.bool
kind_of (ValueRef.i64 value) = ValueKind.i64
kind_of (ValueRef.str value) = ValueKind.str
