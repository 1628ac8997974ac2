-- ===== src/Node/State/Writes.antt =====
-- What a write of the test node changes, seen through `get_value`.
use qup.Prelude.{
  Option, none, some, Result-cases, inl, inr, ℕ, ◌≡◌, ◌≢◌, refl, Bytes, Result, ok, err, arith, ◌<◌,
  ◌^◌, lt→ltb,
}
use qup.Prelude.Exec.{continue}
use qup.Word.{ℤ, pos, negsuc}
use qup.Wire.Value.{ValueRef}
use qup.Wire.Scalar.{readable_bit, writable_bit}
use qup.Node.Keys.{
  key_gp1_string, key_gp2_u64, key_gp3_i64, key_mirror_in, key_small_str10, key_perm_u64_w,
  key_perm_u64_rw, key_spec, expect_i64, expect_u64, expect_str, u64_to_wire,
}
use qup.Node.Frames.{WireValue}
use qup.Node.State.Valid.{IsHeldValue}
use qup.Node.State.{
  SharedState, WriteSuccess, permitted, get_value, read_key, uptime_seconds, write_value, write_key,
  write_gp1_string, write_gp2_u64, write_gp3_i64, write_mirror_in, write_small_str10,
  write_perm_u64_w, write_perm_u64_rw,
}

abbrev Leaves : ℕ → SharedState → Result WriteSuccess ℕ × SharedState → Type 0
Leaves other state x = read_key other x.1 ≡ read_key other state

-- What a client sent, as the node sends it back; the node has no flags.
unfoldable pub as_sent : ValueRef → Option WireValue
as_sent (ValueRef.bool value) = none
as_sent (ValueRef.i64 value) = some (WireValue.i64 value)
as_sent (ValueRef.str value) = some (WireValue.str value)

-- The answer has the value, and a readable key then has it too.
abbrev Shows : ℕ → Option WireValue → Result WriteSuccess ℕ × SharedState → Type 0
Shows keyref value (err code, state) = Unit {0}
Shows keyref value (ok success, state) =
    (value ≡ some success.value)
    × (permitted readable_bit (key_spec keyref) ≡ ok tt → read_key keyref state ≡ ok success.value)

u64_to_wire_lem : (value : ℕ) → value < 2 ^ 63 → u64_to_wire value ≡ pos value
u64_to_wire_lem value fits = rw (lt→ltb value (2 ^ 63) fits) refl

write_gp1_string-Leaves :
    (other : ℕ) (value : Bytes) (state : SharedState)
    → other ≢ key_gp1_string
    → Leaves other state (write_gp1_string value state)
unfolding read_key uptime_seconds write_gp1_string
write_gp1_string-Leaves other value state ne = ground arith

write_gp1_string-Shows :
    (value : Bytes) (state : SharedState)
    → Shows key_gp1_string (some (WireValue.str value)) (write_gp1_string value state)
unfolding read_key key_spec write_gp1_string
write_gp1_string-Shows value state = ground arith

write_gp2_u64-Leaves :
    (other : ℕ) (value : ℕ) (state : SharedState)
    → other ≢ key_gp2_u64
    → Leaves other state (write_gp2_u64 value state)
unfolding read_key uptime_seconds write_gp2_u64
write_gp2_u64-Leaves other value state ne = ground arith

write_gp2_u64-Shows :
    (value : ℕ) (state : SharedState)
    → value < 2 ^ 63
    → Shows key_gp2_u64 (some (WireValue.i64 (pos value))) (write_gp2_u64 value state)
unfolding read_key key_spec write_gp2_u64
write_gp2_u64-Shows value state fits = ground (arith, u64_to_wire_lem value fits)

write_gp3_i64-Leaves :
    (other : ℕ) (value : ℤ) (state : SharedState)
    → other ≢ key_gp3_i64
    → Leaves other state (write_gp3_i64 value state)
unfolding read_key uptime_seconds write_gp3_i64
write_gp3_i64-Leaves other value state ne = ground arith

write_gp3_i64-Shows :
    (value : ℤ) (state : SharedState)
    → Shows key_gp3_i64 (some (WireValue.i64 value)) (write_gp3_i64 value state)
unfolding read_key key_spec write_gp3_i64
write_gp3_i64-Shows value state = ground arith

write_mirror_in-Leaves :
    (other : ℕ) (value : Bytes) (state : SharedState)
    → other ≢ key_mirror_in
    → Leaves other state (write_mirror_in value state)
unfolding read_key uptime_seconds write_mirror_in
write_mirror_in-Leaves other value state ne = ground arith

write_mirror_in-Shows :
    (value : Bytes) (state : SharedState)
    → Shows key_mirror_in (some (WireValue.str value)) (write_mirror_in value state)
unfolding read_key key_spec write_mirror_in
write_mirror_in-Shows value state = ground arith

write_small_str10-Leaves :
    (other : ℕ) (value : Bytes) (state : SharedState)
    → other ≢ key_small_str10
    → Leaves other state (write_small_str10 value state)
unfolding read_key uptime_seconds write_small_str10
write_small_str10-Leaves other value state ne = ground arith

write_small_str10-Shows :
    (value : Bytes) (state : SharedState)
    → Shows key_small_str10 (some (WireValue.str value)) (write_small_str10 value state)
unfolding read_key key_spec write_small_str10
write_small_str10-Shows value state = ground arith

write_perm_u64_w-Leaves :
    (other : ℕ) (value : ℕ) (state : SharedState)
    → other ≢ key_perm_u64_w
    → Leaves other state (write_perm_u64_w value state)
unfolding read_key uptime_seconds write_perm_u64_w
write_perm_u64_w-Leaves other value state ne = ground arith

write_perm_u64_w-Shows :
    (value : ℕ) (state : SharedState)
    → value < 2 ^ 63
    → Shows key_perm_u64_w (some (WireValue.i64 (pos value))) (write_perm_u64_w value state)
unfolding read_key key_spec write_perm_u64_w
write_perm_u64_w-Shows value state fits = ground (arith, u64_to_wire_lem value fits)

write_perm_u64_rw-Leaves :
    (other : ℕ) (value : ℕ) (state : SharedState)
    → other ≢ key_perm_u64_rw
    → Leaves other state (write_perm_u64_rw value state)
unfolding read_key uptime_seconds write_perm_u64_rw
write_perm_u64_rw-Leaves other value state ne = ground arith

write_perm_u64_rw-Shows :
    (value : ℕ) (state : SharedState)
    → value < 2 ^ 63
    → Shows key_perm_u64_rw (some (WireValue.i64 (pos value))) (write_perm_u64_rw value state)
unfolding read_key key_spec write_perm_u64_rw
write_perm_u64_rw-Shows value state fits = ground (arith, u64_to_wire_lem value fits)

write_key-Leaves :
    (keyref other : ℕ) (value : ValueRef) (state : SharedState)
    → other ≢ keyref
    → Leaves other state (write_key keyref value state)
unfolding write_key expect_str expect_u64 expect_i64
write_key-Leaves keyref other (ValueRef.bool value) state ne = ground arith
write_key-Leaves keyref other (ValueRef.str value) state ne = ground (
  arith,
  write_gp1_string-Leaves other value state,
  write_mirror_in-Leaves other value state,
  write_small_str10-Leaves other value state,
)
write_key-Leaves keyref other (ValueRef.i64 (pos value)) state ne = ground (
  arith,
  write_gp2_u64-Leaves other value state,
  write_gp3_i64-Leaves other (pos value) state,
  write_perm_u64_w-Leaves other value state,
  write_perm_u64_rw-Leaves other value state,
)
write_key-Leaves keyref other (ValueRef.i64 (negsuc value)) state ne =
    ground (arith, write_gp3_i64-Leaves other (negsuc value) state)

write_key-Shows :
    (keyref : ℕ) (value : ValueRef) (state : SharedState)
    → IsHeldValue value
    → Shows keyref (as_sent value) (write_key keyref value state)
unfolding write_key expect_str expect_u64 expect_i64 as_sent
write_key-Shows keyref (ValueRef.bool value) state h = ground arith
write_key-Shows keyref (ValueRef.str value) state h = ground (
  arith,
  write_gp1_string-Shows value state,
  write_mirror_in-Shows value state,
  write_small_str10-Shows value state,
)
write_key-Shows keyref (ValueRef.i64 (pos value)) state h = ground (
  arith,
  write_gp2_u64-Shows value state h,
  write_gp3_i64-Shows (pos value) state,
  write_perm_u64_w-Shows value state h,
  write_perm_u64_rw-Shows value state h,
)
write_key-Shows keyref (ValueRef.i64 (negsuc value)) state h =
    ground (arith, write_gp3_i64-Shows (negsuc value) state)

get_value-ext :
    (other : ℕ) (s t : SharedState)
    → read_key other s ≡ read_key other t
    → get_value other s ≡ get_value other t
unfolding get_value
get_value-ext other s t e = ground arith

permitted-Leaves :
    (p : Result (Unit {0}) ℕ) (keyref other : ℕ) (value : ValueRef) (state : SharedState)
    → other ≢ keyref
    → get_value other (continue (p, state) (λ u. write_key keyref value)).1 ≡ get_value other state
permitted-Leaves (err code) keyref other value state ne = refl
permitted-Leaves (ok u) keyref other value state ne =
    get_value-ext other (write_key keyref value state).1 state
      (write_key-Leaves keyref other value state ne)

write_value-Leaves :
    (keyref other : ℕ) (value : ValueRef) (state : SharedState)
    → other ≢ keyref
    → get_value other (write_value keyref value state).1 ≡ get_value other state
unfolding write_value
write_value-Leaves keyref other value state ne =
    permitted-Leaves (permitted writable_bit (key_spec keyref)) keyref other value state ne

abbrev Seen : ℕ → Option WireValue → Result WriteSuccess ℕ × SharedState → Type 0
Seen keyref value (err code, state) = Unit {0}
Seen keyref value (ok success, state) =
    (value ≡ some success.value)
    × (permitted readable_bit (key_spec keyref) ≡ ok tt → get_value keyref state ≡ ok success.value)

Shows-Seen :
    (keyref : ℕ) (value : Option WireValue) (x : Result WriteSuccess ℕ × SharedState)
    → Shows keyref value x
    → Seen keyref value x
unfolding get_value
Shows-Seen keyref value (err code, state) shows = tt
Shows-Seen keyref value (ok success, state) shows =
    (shows.0, λ readable. rw readable (shows.1 readable))

write_value-Seen :
    (keyref : ℕ) (value : ValueRef) (state : SharedState)
    → IsHeldValue value
    → Seen keyref (as_sent value) (write_value keyref value state)
unfolding write_value
write_value-Seen keyref value state h =
    elim (Result-cases (permitted writable_bit (key_spec keyref))) [
      | inr (code, refused) ↦ rw refused tt
      | inl (u, allowed) ↦ rw allowed (
          Shows-Seen keyref (as_sent value) (write_key keyref value state)
            (write_key-Shows keyref value state h))
    ]

-- A write that is accepted, of a text or a number in the range of `i64`, is seen: the answer has the
-- value that was sent, a key that may be read then has that value, and every other key has the value that it had.
pub get_value-write_value :
    (keyref : ℕ) (value : ValueRef) (state state' : SharedState) (success : WriteSuccess)
    → IsHeldValue value
    → write_value keyref value state ≡ (ok success, state')
    → (as_sent value ≡ some success.value)
      × (permitted readable_bit (key_spec keyref) ≡ ok tt
          → get_value keyref state' ≡ ok success.value)
      × ((other : ℕ) → other ≢ keyref → get_value other state' ≡ get_value other state)
get_value-write_value keyref value state state' success held h =
    let (answered, read) = rw h at (write_value-Seen keyref value state held) in
    (answered, read, λ other ne. rw h at (write_value-Leaves keyref other value state ne))
