-- ===== src/Wire/Value/Encoding.antt =====
-- The wire form of a value (PROTOCOL.md, "value"), and its decoding.
use qup.Prelude.{ℕ, ◌≡◌, refl, ap, Bool, true, false, [], ◌∷◌, ◌++◌, Bytes, ok, arith}
use qup.Prelude.Exec.{lift, pure, ◌>>=◌}
use qup.Word.{u8_of_bool, AllBytes, IsByte, IsI64, i64_to_be_bytes}
use qup.Wire.Scalar.{decode_bool}
use qup.Wire.Cursor.{read_u8, read_i64, read_str16}
use qup.Wire.Cursor.Reads.{bytes16, read_u8-cons, read_i64-append, read_str16-append}
use qup.Wire.Cursor.Inverse.{
  Splits, IsStr16, continue-ok, Splits-read_u8, Splits-read_i64, Splits-read_str16,
}
use qup.Wire.Value.{
  ValueKind, ValueRef, kind_from_byte, kind_as_byte, decode_body, decode_value, bool_tag, i64_tag,
  str_tag,
}

abbrev pub encode_value : ValueRef → Bytes
encode_value (ValueRef.bool value) = bool_tag ∷ u8_of_bool value ∷ []
encode_value (ValueRef.i64 value) = i64_tag ∷ i64_to_be_bytes value
encode_value (ValueRef.str value) = str_tag ∷ bytes16 value

-- The values that the wire can carry.
abbrev pub IsWireValue : ValueRef → Type 0
IsWireValue (ValueRef.bool value) = Unit {0}
IsWireValue (ValueRef.i64 value) = IsI64 value
IsWireValue (ValueRef.str value) = IsStr16 value

decode_bool-u8_of_bool : (b : Bool) → decode_bool (u8_of_bool b) ≡ ok b
unfolding decode_bool
decode_bool-u8_of_bool true = refl
decode_bool-u8_of_bool false = refl

-- A value is decoded from its wire form, whatever stands behind it.
pub decode_value-encode_value :
    (value : ValueRef) (rest : Bytes)
    → IsWireValue value
    → decode_value (encode_value value ++ rest) ≡ (ok value, rest)
unfolding decode_value
decode_value-encode_value (ValueRef.bool value) rest h =
    rw (read_u8-cons bool_tag (u8_of_bool value ∷ rest))
      (rw (read_u8-cons (u8_of_bool value) rest) (rw (decode_bool-u8_of_bool value)))
decode_value-encode_value (ValueRef.i64 value) rest h =
    rw (read_u8-cons i64_tag (i64_to_be_bytes value ++ rest)) (rw (read_i64-append value rest h))
decode_value-encode_value (ValueRef.str value) rest h =
    rw (read_u8-cons str_tag (bytes16 value ++ rest))
      (rw (read_str16-append value rest h.fits h.no_nul h.utf8))

Splits-cons :
    (b : ℕ) (s xs rest : Bytes) → IsByte b → Splits s xs rest → Splits (b ∷ s) (b ∷ xs) rest
Splits-cons b s xs rest h p = record {
  joined = ap (◌∷◌ b) p.joined;
  bytes_ok = (h, p.bytes_ok);
  rest_ok = p.rest_ok;
}

decode_bool-ok : (byte : ℕ) (b : Bool) → decode_bool byte ≡ ok b → byte ≡ u8_of_bool b
unfolding decode_bool
decode_bool-ok byte true h = ground arith
decode_bool-ok byte false h = ground arith

kind_from_byte-ok :
    (byte : ℕ) (kind : ValueKind) → kind_from_byte byte ≡ ok kind → byte ≡ kind_as_byte kind
unfolding kind_from_byte kind_as_byte
kind_from_byte-ok byte ValueKind.bool h = ground arith
kind_from_byte-ok byte ValueKind.i64 h = ground arith
kind_from_byte-ok byte ValueKind.str h = ground arith

-- A decoded value is one that the wire can carry, and the bytes taken are its wire form.
decode_body-inverse :
    (kind : ValueKind) (s : Bytes) {value : ValueRef} {rest : Bytes}
    → AllBytes s
    → decode_body kind s ≡ (ok value, rest)
    → Splits (kind_as_byte kind ∷ s) (encode_value value) rest × IsWireValue value
unfolding decode_body kind_as_byte
decode_body-inverse ValueKind.bool s {value} {rest} ok_s h =
    let (byte, t, got, checked) =
      continue-ok (read_u8 s) (λ byte. lift (decode_bool byte) >>= λ b. pure (ValueRef.bool b)) h in
    let (b, u, is_bool, done) =
      continue-ok (decode_bool byte, t) (λ b. pure (ValueRef.bool b)) checked in
    let value_is : ValueRef.bool b ≡ value = cc in
    let rest_is : t ≡ rest = cc in
    let byte_is = decode_bool-ok byte b cc in
    rw (← value_is, ← rest_is)
      (
        Splits-cons bool_tag s (u8_of_bool b ∷ []) t (omega arith)
            (rw byte_is at (Splits-read_u8 s ok_s got)),
        tt,
      )
decode_body-inverse ValueKind.i64 s {value} {rest} ok_s h =
    let (v, t, got, done) = continue-ok (read_i64 s) (λ v. pure (ValueRef.i64 v)) h in
    let (split, range) = Splits-read_i64 s ok_s got in
    let value_is : ValueRef.i64 v ≡ value = cc in
    let rest_is : t ≡ rest = cc in
    rw (← value_is, ← rest_is)
      (Splits-cons i64_tag s (i64_to_be_bytes v) t (omega arith) split, range)
decode_body-inverse ValueKind.str s {value} {rest} ok_s h =
    let (v, t, got, done) = continue-ok (read_str16 s) (λ v. pure (ValueRef.str v)) h in
    let (split, str16) = Splits-read_str16 s ok_s got in
    let value_is : ValueRef.str v ≡ value = cc in
    let rest_is : t ≡ rest = cc in
    rw (← value_is, ← rest_is) (Splits-cons str_tag s (bytes16 v) t (omega arith) split, str16)

pub Splits-decode_value :
    (s : Bytes) {value : ValueRef} {rest : Bytes}
    → AllBytes s
    → decode_value s ≡ (ok value, rest)
    → Splits s (encode_value value) rest × IsWireValue value
unfolding decode_value
Splits-decode_value s {value} {rest} ok_s h =
    let (byte, t, got, checked) =
      continue-ok (read_u8 s) (λ byte. lift (kind_from_byte byte) >>= decode_body) h in
    let (kind, u, is_kind, done) = continue-ok (kind_from_byte byte, t) decode_body checked in
    let split = Splits-read_u8 s ok_s got in
    let t_is : t ≡ u = cc in
    let byte_is = kind_from_byte-ok byte kind cc in
    rw (split.joined, byte_is) (decode_body-inverse kind t split.rest_ok (rw (← t_is) at done))
