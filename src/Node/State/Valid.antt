-- ===== src/Node/State/Valid.antt =====
-- The values that the test node holds can be sent.
use qup.Prelude.{
  Option, ℕ, ◌^◌, ◌≤◌, ◌<◌, ◌≡◌, refl, false, none, some, [], Bytes, Result, ok, err, length, arith,
}
use qup.Word.{ℤ, pos, negsuc, IsI64, contains}
use qup.Wire.Utf8.{IsUtf8}
use qup.Wire.Value.{ValueRef}
use qup.Wire.Scalar.{readable_bit}
use qup.Node.Keys.{observable_change, key_spec, expect_i64, expect_u64, expect_str}
use qup.Node.Frames.{WireValue}
use qup.Node.State.{
  SharedState, WriteSuccess, permitted, get_value, read_key, uptime_seconds, write_value, write_key,
  write_gp1_string, write_gp2_u64, write_gp3_i64, write_mirror_in, write_small_str10,
  write_perm_u64_w, write_perm_u64_rw, new_state, update_voltage, flush_mirror_update,
}

-- A string that fits a WRITE request, and so the response that carries it back.
pub record IsHeld (bytes : Bytes) : Type 0 where
  pub short : length bytes ≤ 65530
  pub no_nul : contains bytes 0x00 ≡ false
  pub utf8 : IsUtf8 bytes

abbrev pub IsHeldValue : ValueRef → Type 0
IsHeldValue (ValueRef.bool value) = Unit {0}
IsHeldValue (ValueRef.i64 value) = IsI64 value
IsHeldValue (ValueRef.str value) = IsHeld value

abbrev pub IsSendable : WireValue → Type 0
IsSendable (WireValue.i64 value) = IsI64 value
IsSendable (WireValue.str value) = IsHeld value

pub record Valid (state : SharedState) : Type 0 where
  pub voltage_ok : IsI64 state.voltage_ma
  pub gp1_ok : IsHeld state.gp1_string
  pub gp2_ok : state.gp2_u64 < 2 ^ 63
  pub gp3_ok : IsI64 state.gp3_i64
  pub pending_ok : IsHeld state.mirror_pending
  pub mirror_ok : IsHeld state.mirror_out
  pub small_ok : IsHeld state.small_str10 × (length state.small_str10 ≤ 10)
  pub empty_ok : state.small_str0 ≡ []
  pub w_ok : state.perm_u64_w < 2 ^ 63
  pub rw_ok : state.perm_u64_rw < 2 ^ 63

-- A key that may be read has a value: the last arm of the `match` is for no such key.
pub get_value-permitted :
    (keyref code : ℕ) (state : SharedState)
    → get_value keyref state ≡ err code
    → permitted readable_bit (key_spec keyref) ≡ err code
unfolding get_value read_key key_spec
get_value-permitted keyref code state h = ground arith

abbrev pub SendsValue : Result WireValue ℕ → Type 0
SendsValue (ok value) = IsSendable value
SendsValue (err code) = code < 256

empty-IsHeld : IsHeld []
unfolding contains qup.Wire.Utf8.from_utf8
empty-IsHeld = record { short = omega arith; no_nul = refl; utf8 = refl }

read_key-SendsValue :
    (keyref : ℕ) (state : SharedState) → Valid state → SendsValue (read_key keyref state)
unfolding read_key uptime_seconds
read_key-SendsValue keyref state valid =
    let empty_held : IsHeld state.small_str0 = rw valid.empty_ok empty-IsHeld in ground arith

pub get_value-SendsValue :
    (keyref : ℕ) (state : SharedState) → Valid state → SendsValue (get_value keyref state)
unfolding get_value
get_value-SendsValue keyref state valid = ground (arith, read_key-SendsValue keyref state)

-- A write keeps the values sendable, and its answer is one of them.
abbrev pub IsAnnounced : Option ℕ → Type 0
IsAnnounced none = Unit {0}
IsAnnounced (some keyref) = keyref < 2 ^ 16

abbrev pub KeepsValid : Result WriteSuccess ℕ × SharedState → Type 0
KeepsValid (ok success, state) =
    IsSendable success.value × IsAnnounced success.changed_keyref × Valid state
KeepsValid (err code, state) = (code < 256) × Valid state

write_gp1_string-KeepsValid :
    (value : Bytes) (state : SharedState)
    → Valid state
    → IsHeld value
    → KeepsValid (write_gp1_string value state)
unfolding write_gp1_string observable_change
write_gp1_string-KeepsValid value state valid held = ground arith

write_mirror_in-KeepsValid :
    (value : Bytes) (state : SharedState)
    → Valid state
    → IsHeld value
    → KeepsValid (write_mirror_in value state)
unfolding write_mirror_in
write_mirror_in-KeepsValid value state valid held = ground arith

write_small_str10-KeepsValid :
    (value : Bytes) (state : SharedState)
    → Valid state
    → IsHeld value
    → KeepsValid (write_small_str10 value state)
unfolding write_small_str10 observable_change
write_small_str10-KeepsValid value state valid held = ground arith

write_gp3_i64-KeepsValid :
    (value : ℤ) (state : SharedState)
    → Valid state
    → IsI64 value
    → KeepsValid (write_gp3_i64 value state)
unfolding write_gp3_i64 observable_change
write_gp3_i64-KeepsValid value state valid held = ground arith

write_gp2_u64-KeepsValid :
    (value : ℕ) (state : SharedState)
    → Valid state
    → value < 2 ^ 63
    → KeepsValid (write_gp2_u64 value state)
unfolding write_gp2_u64 observable_change
write_gp2_u64-KeepsValid value state valid held = ground arith

write_perm_u64_w-KeepsValid :
    (value : ℕ) (state : SharedState)
    → Valid state
    → value < 2 ^ 63
    → KeepsValid (write_perm_u64_w value state)
unfolding write_perm_u64_w
write_perm_u64_w-KeepsValid value state valid held = ground arith

write_perm_u64_rw-KeepsValid :
    (value : ℕ) (state : SharedState)
    → Valid state
    → value < 2 ^ 63
    → KeepsValid (write_perm_u64_rw value state)
unfolding write_perm_u64_rw
write_perm_u64_rw-KeepsValid value state valid held = ground arith

write_key-KeepsValid :
    (keyref : ℕ) (value : ValueRef) (state : SharedState)
    → Valid state
    → IsHeldValue value
    → KeepsValid (write_key keyref value state)
unfolding write_key expect_str expect_u64 expect_i64
write_key-KeepsValid keyref (ValueRef.bool value) state valid held = ground arith
write_key-KeepsValid keyref (ValueRef.i64 (pos value)) state valid held = ground (
  arith,
  write_gp2_u64-KeepsValid value state,
  write_gp3_i64-KeepsValid (pos value) state,
  write_perm_u64_w-KeepsValid value state,
  write_perm_u64_rw-KeepsValid value state,
)
write_key-KeepsValid keyref (ValueRef.i64 (negsuc value)) state valid held =
    ground (arith, write_gp3_i64-KeepsValid (negsuc value) state)
write_key-KeepsValid keyref (ValueRef.str value) state valid held = ground (
  arith,
  write_gp1_string-KeepsValid value state,
  write_mirror_in-KeepsValid value state,
  write_small_str10-KeepsValid value state,
)

-- A write of a value that fits a frame keeps every stored value sendable, whether it is accepted or
-- refused; the value that an accepted write answers with is sendable too, and so is the key that it
-- announces.
pub write_value-KeepsValid :
    (keyref : ℕ) (value : ValueRef) (state : SharedState)
    → Valid state
    → IsHeldValue value
    → KeepsValid (write_value keyref value state)
unfolding write_value
write_value-KeepsValid keyref value state valid held =
    ground (arith, write_key-KeepsValid keyref value state)

pub new_state-Valid : (seed : ℕ) → Valid (new_state seed)
new_state-Valid seed = record {
  voltage_ok = omega arith;
  gp1_ok = empty-IsHeld;
  gp2_ok = omega arith;
  gp3_ok = omega arith;
  pending_ok = empty-IsHeld;
  mirror_ok = empty-IsHeld;
  small_ok = (empty-IsHeld, omega arith);
  empty_ok = refl;
  w_ok = omega arith;
  rw_ok = omega arith;
}

pub update_voltage-Valid :
    (state : SharedState)
    → Valid state
    → IsAnnounced (update_voltage state).0 × Valid (update_voltage state).1
unfolding update_voltage
update_voltage-Valid state valid = ground arith

pub flush_mirror_update-Valid :
    (generation : ℕ) (state : SharedState)
    → Valid state
    → IsAnnounced (flush_mirror_update generation state).0
      × Valid (flush_mirror_update generation state).1
unfolding flush_mirror_update
flush_mirror_update-Valid generation state valid = ground arith
