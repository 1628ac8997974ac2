-- ===== src/Node/State.antt =====
-- `SharedState` of crates/qup-test-node/src/main.rs: the values behind the keys. A lock and an
-- atomic are the value that they hold; an operation on one is one step.
pub mod Changes
pub mod Valid
pub mod Writes
use Prim.Native.Nat.{bit_xor}
use qup.Prelude.{
  ℕ, ◌+◌, ◌-◌, ◌*◌, ◌/◌, ◌%◌, ◌^◌, min, Bool, true, false, not, Option, none, some, List, [], ◌∷◌,
  Bytes, Result, ok, err, length, ltb, leb, ◌==◌, same_bytes, if◌then◌else◌,
}
use qup.Prelude.Exec.{Exec, lift, raise, ◌>>=◌, ◌>>◌}
use qup.Word.{ℤ, pos, negsuc}
use qup.Wire.Scalar.{readable_bit, writable_bit}
use qup.Wire.Value.{ValueRef}
use qup.Node.Keys.{
  KeySpec, key_spec, has_flag, observable_change, expect_i64, expect_u64, expect_str, u64_to_wire,
  err_unknown_keyref, err_permission, err_type_mismatch, key_voltage_ma, key_uptime, key_gp1_string,
  key_gp2_u64, key_gp3_i64, key_mirror_in, key_mirror_out, key_small_str10, key_small_str0,
  key_perm_u64_w, key_perm_u64_rw, key_perm_u64_r,
}
use qup.Node.Frames.{WireValue}

-- `elapsed` is what the clock says since `started_at`, in seconds. `scheduled` holds the generations
-- of the mirror updates that are spawned and still asleep.
pub record SharedState : Type 0 where
  pub elapsed : ℕ
  pub rng_seed : ℕ
  pub voltage_ma : ℤ
  pub gp1_string : Bytes
  pub gp2_u64 : ℕ
  pub gp3_i64 : ℤ
  pub mirror_in : Bytes
  pub mirror_pending : Bytes
  pub mirror_generation : ℕ
  pub mirror_out : Bytes
  pub small_str10 : Bytes
  pub small_str0 : Bytes
  pub perm_u64_w : ℕ
  pub perm_u64_rw : ℕ
  pub scheduled : List ℕ

-- SharedState::new; the seed comes from the clock.
abbrev pub new_state : ℕ → SharedState
new_state initial_seed = record {
  elapsed = 0;
  rng_seed = initial_seed;
  voltage_ma = pos 250;
  gp1_string = [];
  gp2_u64 = 0;
  gp3_i64 = pos 0;
  mirror_in = [];
  mirror_pending = [];
  mirror_generation = 0;
  mirror_out = [];
  small_str10 = [];
  small_str0 = [];
  perm_u64_w = 0;
  perm_u64_rw = 0;
  scheduled = [];
}

-- i64::try_from(elapsed).unwrap_or(i64::MAX)
unfoldable pub uptime_seconds : SharedState → ℤ
uptime_seconds state = u64_to_wire state.elapsed

unfoldable pub read_key : ℕ → SharedState → Result WireValue ℕ
unfolding uptime_seconds
read_key keyref state =
    if keyref == key_voltage_ma
    then ok (WireValue.i64 state.voltage_ma)
    else if keyref == key_uptime
    then ok (WireValue.i64 (uptime_seconds state))
    else if keyref == key_gp1_string
    then ok (WireValue.str state.gp1_string)
    else if keyref == key_gp2_u64
    then ok (WireValue.i64 (u64_to_wire state.gp2_u64))
    else if keyref == key_gp3_i64
    then ok (WireValue.i64 state.gp3_i64)
    else if keyref == key_mirror_out
    then ok (WireValue.str state.mirror_out)
    else if keyref == key_small_str10
    then ok (WireValue.str state.small_str10)
    else if keyref == key_small_str0
    then ok (WireValue.str state.small_str0)
    else if keyref == key_perm_u64_rw
    then ok (WireValue.i64 (u64_to_wire state.perm_u64_rw))
    else if keyref == key_perm_u64_r
    then ok (WireValue.i64 (pos 1337))
    else err err_permission

-- The early returns of `get_value` and `write_value`.
abbrev pub permitted : ℕ → Option KeySpec → Result (Unit {0}) ℕ
permitted bit none = err err_unknown_keyref
permitted bit (some spec) = if not (has_flag spec bit) then err err_permission else ok tt

unfoldable pub get_value : ℕ → SharedState → Result WireValue ℕ
unfolding key_spec read_key
get_value keyref state = elim (permitted readable_bit (key_spec keyref)) [
  | err code ↦ err code
  | ok _ ↦ read_key keyref state
]

pub record WriteSuccess : Type 0 where
  pub value : WireValue
  pub changed_keyref : Option ℕ

abbrev pub Write : Type 0
Write = Exec SharedState ℕ WriteSuccess

-- WriteSuccess::new
abbrev pub success : WireValue → Option ℕ → SharedState → Result WriteSuccess ℕ × SharedState
success value changed_keyref state =
    (ok (record { value = value; changed_keyref = changed_keyref }), state)

-- The arms of the `match` in `write_value`, after their `expect_…`.
unfoldable pub write_gp1_string : Bytes → Write
write_gp1_string value state =
    success (WireValue.str value)
      (observable_change key_gp1_string (not (same_bytes state.gp1_string value)))
      (record state { gp1_string = value })

unfoldable pub write_gp2_u64 : ℕ → Write
write_gp2_u64 value state =
    success (WireValue.i64 (u64_to_wire value))
      (observable_change key_gp2_u64 (not (state.gp2_u64 == value)))
      (record state { gp2_u64 = value })

abbrev pub same_i64 : ℤ → ℤ → Bool
same_i64 (pos a) (pos b) = a == b
same_i64 (negsuc a) (negsuc b) = a == b
same_i64 _ _ = false

unfoldable pub write_gp3_i64 : ℤ → Write
write_gp3_i64 value state =
    success (WireValue.i64 value)
      (observable_change key_gp3_i64 (not (same_i64 state.gp3_i64 value)))
      (record state { gp3_i64 = value })

-- `fetch_add(1)` wraps; the generation that is scheduled is the old one with `saturating_add(1)`.
unfoldable pub write_mirror_in : Bytes → Write
write_mirror_in value state = success (WireValue.str value) none (record state {
  mirror_in = value;
  mirror_pending = value;
  mirror_generation = (state.mirror_generation + 1) % 2 ^ 64;
  scheduled = min (state.mirror_generation + 1) (2 ^ 64 - 1) ∷ state.scheduled;
})

unfoldable pub write_small_str10 : Bytes → Write
write_small_str10 value state =
    if ltb 10 (length value)
    then (err err_type_mismatch, state)
    else success (WireValue.str value)
        (observable_change key_small_str10 (not (same_bytes state.small_str10 value)))
        (record state { small_str10 = value })

unfoldable pub write_perm_u64_w : ℕ → Write
write_perm_u64_w value state =
    success (WireValue.i64 (u64_to_wire value)) none (record state { perm_u64_w = value })

unfoldable pub write_perm_u64_rw : ℕ → Write
write_perm_u64_rw value state =
    success (WireValue.i64 (u64_to_wire value)) none (record state { perm_u64_rw = value })

unfoldable pub write_key : ℕ → ValueRef → Write
unfolding write_gp1_string write_gp2_u64 write_gp3_i64 write_mirror_in write_small_str10
    write_perm_u64_w write_perm_u64_rw
write_key keyref value =
    if keyref == key_gp1_string
    then (lift (expect_str value) >>= write_gp1_string)
    else if keyref == key_gp2_u64
    then (lift (expect_u64 value) >>= write_gp2_u64)
    else if keyref == key_gp3_i64
    then (lift (expect_i64 value) >>= write_gp3_i64)
    else if keyref == key_mirror_in
    then (lift (expect_str value) >>= write_mirror_in)
    else if keyref == key_small_str10
    then (lift (expect_str value) >>= write_small_str10)
    else if keyref == key_small_str0
    then (lift (expect_str value) >>= λ value. raise err_type_mismatch)
    else if keyref == key_perm_u64_w
    then (lift (expect_u64 value) >>= write_perm_u64_w)
    else if keyref == key_perm_u64_rw
    then (lift (expect_u64 value) >>= write_perm_u64_rw)
    else raise err_permission

unfoldable pub write_value : ℕ → ValueRef → Write
unfolding key_spec write_key
write_value keyref value = lift (permitted writable_bit (key_spec keyref)) >> write_key keyref value

-- mix_u64
unfoldable pub mix_u64 : ℕ → ℕ
mix_u64 value =
    let first = bit_xor value (value / 2 ^ 30) in
    let second = first * 0xbf58476d1ce4e5b9 % 2 ^ 64 in
    let third = bit_xor second (second / 2 ^ 27) in
    let fourth = third * 0x94d049bb133111eb % 2 ^ 64 in bit_xor fourth (fourth / 2 ^ 31)

-- 250.saturating_add(bucket.saturating_sub(20)); no sum comes near the ends of `i64`.
abbrev pub next_voltage : ℕ → ℤ
next_voltage bucket = pos (250 + bucket - 20)

-- What `update_voltage` and `flush_mirror_update` do to the state: the key to announce, if any.
unfoldable pub update_voltage : SharedState → Option ℕ × SharedState
unfolding mix_u64
update_voltage state =
    let next_value = next_voltage (mix_u64 state.rng_seed % 41) in
    (
      if same_i64 state.voltage_ma next_value then none else some key_voltage_ma,
      record state {
        rng_seed = (state.rng_seed + 0x9e3779b97f4a7c15) % 2 ^ 64;
        voltage_ma = next_value;
      },
    )

unfoldable pub flush_mirror_update : ℕ → SharedState → Option ℕ × SharedState
flush_mirror_update generation state =
    if not (state.mirror_generation == generation)
    then (none, state)
    else if same_bytes state.mirror_out state.mirror_pending
    then (none, state)
    else (some key_mirror_out, record state { mirror_out = state.mirror_pending })
