-- ===== src/Node/Keys.antt =====
-- The key table of crates/qup-test-node/src/main.rs and the constants around it.
use Prim.Native.Nat.{bit_and, bit_or}
use qup.Prelude.{
  ℕ, ◌-◌, ◌^◌, Bool, false, not, ◌&&◌, Option, none, some, List, [], ◌∷◌, Bytes, Result, ok, err,
  ◌>>=◌, get_elem?, ltb, ◌==◌, if◌then◌else◌,
}
use qup.Word.{ℤ, pos, negsuc}
use qup.Wire.Scalar.{readable_bit, writable_bit, observable_bit}
use qup.Wire.Value.{ValueRef}

abbrev pub caps_text : Bytes
caps_text =
    b'P' ∷ b'k' ∷ b'I' ∷ b'i' ∷ b'C' ∷ b'c' ∷ b'S' ∷ b's' ∷ b'G' ∷ b'g' ∷ b'W' ∷ b'w' ∷ b'N' ∷ b'k'
    ∷ b'U' ∷ b'k' ∷ b'!' ∷ []

abbrev pub node_id : Bytes
node_id =
    b'q' ∷ b'u' ∷ b'p' ∷ b'-' ∷ b't' ∷ b'e' ∷ b's' ∷ b't' ∷ b'-' ∷ b'n' ∷ b'o' ∷ b'd' ∷ b'e' ∷ []

abbrev pub key_count : ℕ
key_count = 14

abbrev pub err_unknown_keyref : ℕ
err_unknown_keyref = 0x01

abbrev pub err_permission : ℕ
err_permission = 0x02

abbrev pub err_type_mismatch : ℕ
err_type_mismatch = 0x03

abbrev pub key_voltage_ma : ℕ
key_voltage_ma = 0

abbrev pub key_uptime : ℕ
key_uptime = 1

abbrev pub key_gp1_string : ℕ
key_gp1_string = 2

abbrev pub key_gp2_u64 : ℕ
key_gp2_u64 = 3

abbrev pub key_gp3_i64 : ℕ
key_gp3_i64 = 4

abbrev pub key_mirror_in : ℕ
key_mirror_in = 5

abbrev pub key_mirror_out : ℕ
key_mirror_out = 6

abbrev pub key_small_str10 : ℕ
key_small_str10 = 7

abbrev pub key_small_str0 : ℕ
key_small_str0 = 8

abbrev pub key_perm_u64_w : ℕ
key_perm_u64_w = 11

abbrev pub key_perm_u64_rw : ℕ
key_perm_u64_rw = 12

abbrev pub key_perm_u64_r : ℕ
key_perm_u64_r = 13

pub record KeySpec : Type 0 where
  pub name : Bytes
  pub flags : ℕ

abbrev pub key_specs : List KeySpec
key_specs =
    record {
      name = b'v' ∷ b'o' ∷ b'l' ∷ b't' ∷ b'a' ∷ b'g' ∷ b'e' ∷ b'_' ∷ b'm' ∷ b'a' ∷ [];
      flags = bit_or readable_bit observable_bit;
    }
    ∷ record { name = b'u' ∷ b'p' ∷ b't' ∷ b'i' ∷ b'm' ∷ b'e' ∷ []; flags = readable_bit }
    ∷ record {
      name = b'g' ∷ b'p' ∷ b'1' ∷ b'_' ∷ b's' ∷ b't' ∷ b'r' ∷ b'i' ∷ b'n' ∷ b'g' ∷ [];
      flags = bit_or (bit_or readable_bit writable_bit) observable_bit;
    }
    ∷ record {
      name = b'g' ∷ b'p' ∷ b'2' ∷ b'_' ∷ b'u' ∷ b'6' ∷ b'4' ∷ [];
      flags = bit_or (bit_or readable_bit writable_bit) observable_bit;
    }
    ∷ record {
      name = b'g' ∷ b'p' ∷ b'3' ∷ b'_' ∷ b'i' ∷ b'6' ∷ b'4' ∷ [];
      flags = bit_or (bit_or readable_bit writable_bit) observable_bit;
    }
    ∷ record {
      name = b'm' ∷ b'i' ∷ b'r' ∷ b'r' ∷ b'o' ∷ b'r' ∷ b'_' ∷ b'i' ∷ b'n' ∷ [];
      flags = writable_bit;
    }
    ∷ record {
      name = b'm' ∷ b'i' ∷ b'r' ∷ b'r' ∷ b'o' ∷ b'r' ∷ b'_' ∷ b'o' ∷ b'u' ∷ b't' ∷ [];
      flags = bit_or readable_bit observable_bit;
    }
    ∷ record {
      name = b's' ∷ b'm' ∷ b'a' ∷ b'l' ∷ b'l' ∷ b'_' ∷ b's' ∷ b't' ∷ b'r' ∷ b'1' ∷ b'0' ∷ [];
      flags = bit_or (bit_or readable_bit writable_bit) observable_bit;
    }
    ∷ record {
      name = b's' ∷ b'm' ∷ b'a' ∷ b'l' ∷ b'l' ∷ b'_' ∷ b's' ∷ b't' ∷ b'r' ∷ b'0' ∷ [];
      flags = bit_or (bit_or readable_bit writable_bit) observable_bit;
    }
    ∷ record { name = b'd' ∷ b'e' ∷ b'a' ∷ b'd' ∷ []; flags = 0 }
    ∷ record { name = b'd' ∷ b'e' ∷ b'a' ∷ b'd' ∷ b'2' ∷ []; flags = 0 }
    ∷ record {
      name = b'p' ∷ b'e' ∷ b'r' ∷ b'm' ∷ b'_' ∷ b'u' ∷ b'6' ∷ b'4' ∷ b'_' ∷ b'w' ∷ [];
      flags = writable_bit;
    }
    ∷ record {
      name = b'p' ∷ b'e' ∷ b'r' ∷ b'm' ∷ b'_' ∷ b'u' ∷ b'6' ∷ b'4' ∷ b'_' ∷ b'r' ∷ b'w' ∷ [];
      flags = bit_or readable_bit writable_bit;
    }
    ∷ record {
      name = b'p' ∷ b'e' ∷ b'r' ∷ b'm' ∷ b'_' ∷ b'u' ∷ b'6' ∷ b'4' ∷ b'_' ∷ b'r' ∷ [];
      flags = readable_bit;
    }
    ∷ []

unfoldable pub key_spec : ℕ → Option KeySpec
key_spec keyref = get_elem? key_specs keyref

-- spec.flags & bit != 0
abbrev pub has_flag : KeySpec → ℕ → Bool
has_flag spec bit = not (bit_and spec.flags bit == 0)

-- 1u16.checked_shl(u32::from(keyref))
unfoldable pub key_mask : ℕ → Option ℕ
key_mask keyref = if ltb keyref 16 then some (2 ^ keyref) else none

-- `key_spec(keyref).is_some_and(|spec| spec.flags & OBSERVABLE != 0)`
abbrev pub is_observable_key : Option KeySpec → Bool
is_observable_key none = false
is_observable_key (some spec) = has_flag spec observable_bit

unfoldable pub observable_change : ℕ → Bool → Option ℕ
unfolding key_spec
observable_change keyref changed =
    if changed && is_observable_key (key_spec keyref) then some keyref else none

unfoldable pub expect_i64 : ValueRef → Result ℤ ℕ
expect_i64 (ValueRef.i64 value) = ok value
expect_i64 (ValueRef.bool value) = err err_type_mismatch
expect_i64 (ValueRef.str value) = err err_type_mismatch

-- `u64::try_from(value)`, after the test `value < 0`
abbrev nonnegative : ℤ → Result ℕ ℕ
nonnegative (pos n) = ok n
nonnegative (negsuc n) = err err_type_mismatch

unfoldable pub expect_u64 : ValueRef → Result ℕ ℕ
unfolding expect_i64
expect_u64 value = do value ← expect_i64 value; nonnegative value

unfoldable pub expect_str : ValueRef → Result Bytes ℕ
expect_str (ValueRef.str value) = ok value
expect_str (ValueRef.bool value) = err err_type_mismatch
expect_str (ValueRef.i64 value) = err err_type_mismatch

-- i64::try_from(value).unwrap_or(i64::MAX)
abbrev pub u64_to_wire : ℕ → ℤ
u64_to_wire value = if ltb value (2 ^ 63) then pos value else pos (2 ^ 63 - 1)

-- SharedState::can_observe
unfoldable pub can_observe : ℕ → Result (Unit {0}) ℕ
unfolding key_spec
can_observe keyref = elim (key_spec keyref) [
  | none ↦ err err_unknown_keyref
  | some spec ↦ if not (has_flag spec observable_bit) then err err_permission else ok tt
]

-- SharedState::validate_keyref
unfoldable pub validate_keyref : ℕ → Result (Unit {0}) ℕ
unfolding key_spec
validate_keyref keyref = elim (key_spec keyref) [
  | none ↦ err err_unknown_keyref
  | some spec ↦ ok tt
]
