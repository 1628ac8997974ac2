-- ===== src/Node/State/Changes.antt =====
-- Which writes of the test node announce a change.
use qup.Prelude.{
  Result-cases, inl, inr, ℕ, ◌^◌, ◌<◌, ◌≡◌, ◌≢◌, refl, sym, ap, Bool, true, false, not, Option,
  none, some, [], Bytes, Result, ok, err, length, ltb, ◌==◌, same_bytes, same_bytes_sound,
  same_bytes_refl, arith, Bool-cases,
}
use qup.Word.{ℤ, pos, negsuc}
use qup.Wire.Value.{ValueRef}
use qup.Wire.Scalar.{writable_bit}
use qup.Node.Keys.{
  key_gp1_string, key_gp2_u64, key_gp3_i64, key_mirror_in, key_small_str10, key_perm_u64_w,
  key_perm_u64_rw, key_spec, observable_change, u64_to_wire, can_observe, expect_i64, expect_u64,
  expect_str,
}
use qup.Node.Frames.{WireValue}
use qup.Node.State.{
  SharedState, WriteSuccess, permitted, read_key, write_value, write_key, write_gp1_string,
  write_gp2_u64, write_gp3_i64, write_mirror_in, write_small_str10, write_perm_u64_w,
  write_perm_u64_rw, same_i64,
}
use qup.Node.State.Valid.{Valid, IsHeldValue}

-- What is announced is a change of the key that is written, when it is a key to observe.
abbrev pub Announces : ℕ → Result WireValue ℕ → Result WireValue ℕ → Option ℕ → Type 0
Announces keyref before after none = can_observe keyref ≡ ok tt → after ≡ before
Announces keyref before after (some k) =
    (k ≡ keyref) × (can_observe keyref ≡ ok tt) × (after ≢ before)

observable_change-Announces :
    (keyref : ℕ) (same : Bool) (before after : Result WireValue ℕ)
    → (same ≡ true → after ≡ before)
    → (same ≡ false → after ≢ before)
    → Announces keyref before after (observable_change keyref (not same))
unfolding observable_change can_observe
observable_change-Announces keyref true before after h differs = λ o. h refl
observable_change-Announces keyref false before after equal differs =
    let ne = differs refl in ground arith

abbrev AnnouncesWrite : ℕ → SharedState → Result WriteSuccess ℕ × SharedState → Type 0
AnnouncesWrite keyref before (err code, after) = Unit {0}
AnnouncesWrite keyref before (ok success, after) =
    Announces keyref (read_key keyref before) (read_key keyref after) success.changed_keyref

differs_bytes : {xs ys : Bytes} → same_bytes xs ys ≡ false → xs ≢ ys
differs_bytes {xs} {ys} h e = let same = rw e at (same_bytes_refl xs) in cc

abbrev stored_str : Result WireValue ℕ → Bytes
stored_str (ok (WireValue.str value)) = value
stored_str _ = []

abbrev stored_i64 : Result WireValue ℕ → ℤ
stored_i64 (ok (WireValue.i64 value)) = value
stored_i64 _ = pos 0

write_gp1_string-Announces :
    (value : Bytes) (state : SharedState)
    → AnnouncesWrite key_gp1_string state (write_gp1_string value state)
unfolding read_key write_gp1_string
write_gp1_string-Announces value state =
    observable_change-Announces key_gp1_string (same_bytes state.gp1_string value) _ _
      (λ h. ap (λ v. ok (WireValue.str v)) (sym (same_bytes_sound _ _ h)))
      (λ h e. differs_bytes h (ap stored_str (sym e)))

write_small_str10-Announces :
    (value : Bytes) (state : SharedState)
    → AnnouncesWrite key_small_str10 state (write_small_str10 value state)
unfolding read_key write_small_str10
write_small_str10-Announces value state = elim (Bool-cases (ltb 10 (length value))) [
  | inl long ↦ rw long tt
  | inr short ↦ rw short (
      observable_change-Announces key_small_str10 (same_bytes state.small_str10 value) _ _
        (λ h. ap (λ v. ok (WireValue.str v)) (sym (same_bytes_sound _ _ h)))
        (λ h e. differs_bytes h (ap stored_str (sym e))))
]

same_i64_sound : (a b : ℤ) → same_i64 a b ≡ true → a ≡ b
same_i64_sound (pos a) (pos b) h = ground arith
same_i64_sound (negsuc a) (negsuc b) h = ground arith
same_i64_sound (pos a) (negsuc b) h = cc
same_i64_sound (negsuc a) (pos b) h = cc

same_i64_refl : (a : ℤ) → same_i64 a a ≡ true
same_i64_refl (pos a) = ground arith
same_i64_refl (negsuc a) = ground arith

differs_i64 : {a b : ℤ} → same_i64 a b ≡ false → a ≢ b
differs_i64 {a} {b} h e = let same = rw e at (same_i64_refl a) in cc

write_gp3_i64-Announces :
    (value : ℤ) (state : SharedState) → AnnouncesWrite key_gp3_i64 state (write_gp3_i64 value state)
unfolding read_key write_gp3_i64
write_gp3_i64-Announces value state =
    observable_change-Announces key_gp3_i64 (same_i64 state.gp3_i64 value) _ _
      (λ h. ap (λ v. ok (WireValue.i64 v)) (sym (same_i64_sound _ _ h)))
      (λ h e. differs_i64 h (ap stored_i64 (sym e)))

write_gp2_u64-Announces :
    (value : ℕ) (state : SharedState)
    → state.gp2_u64 < 2 ^ 63
    → value < 2 ^ 63
    → AnnouncesWrite key_gp2_u64 state (write_gp2_u64 value state)
unfolding read_key write_gp2_u64
write_gp2_u64-Announces value state small_before small =
    observable_change-Announces key_gp2_u64 (state.gp2_u64 == value) _ _
      (λ h. ap (λ v. ok (WireValue.i64 (u64_to_wire v))) (ground arith))
      (λ h e. let same = ap stored_i64 e in ground arith)

write_perm_u64_w-Announces :
    (value : ℕ) (state : SharedState)
    → AnnouncesWrite key_perm_u64_w state (write_perm_u64_w value state)
unfolding write_perm_u64_w can_observe
write_perm_u64_w-Announces value state o = cc

write_perm_u64_rw-Announces :
    (value : ℕ) (state : SharedState)
    → AnnouncesWrite key_perm_u64_rw state (write_perm_u64_rw value state)
unfolding write_perm_u64_rw can_observe
write_perm_u64_rw-Announces value state o = cc

write_mirror_in-Announces :
    (value : Bytes) (state : SharedState)
    → AnnouncesWrite key_mirror_in state (write_mirror_in value state)
unfolding write_mirror_in can_observe
write_mirror_in-Announces value state o = cc

write_key-Announces :
    (keyref : ℕ) (value : ValueRef) (state : SharedState)
    → Valid state
    → IsHeldValue value
    → AnnouncesWrite keyref state (write_key keyref value state)
unfolding write_key expect_str expect_u64 expect_i64
write_key-Announces keyref (ValueRef.bool value) state valid held = ground arith
write_key-Announces keyref (ValueRef.i64 (pos value)) state valid held = ground (
  arith,
  write_gp2_u64-Announces value state,
  write_gp3_i64-Announces (pos value) state,
  write_perm_u64_w-Announces value state,
  write_perm_u64_rw-Announces value state,
)
write_key-Announces keyref (ValueRef.i64 (negsuc value)) state valid held =
    ground (arith, write_gp3_i64-Announces (negsuc value) state)
write_key-Announces keyref (ValueRef.str value) state valid held = ground (
  arith,
  write_gp1_string-Announces value state,
  write_mirror_in-Announces value state,
  write_small_str10-Announces value state,
)

-- What an accepted write of a sendable value announces is the key that it writes, which clients may
-- observe and whose value it changes; and when it announces nothing while clients may observe the
-- key, the value is the one that it was.
pub write_value-Announces :
    (keyref : ℕ) (value : ValueRef) (state state' : SharedState) (success : WriteSuccess)
    → Valid state
    → IsHeldValue value
    → write_value keyref value state ≡ (ok success, state')
    → Announces keyref (read_key keyref state) (read_key keyref state') success.changed_keyref
unfolding write_value
write_value-Announces keyref value state state' success valid held h =
    let announces = write_key-Announces keyref value state valid held in
    elim (Result-cases (permitted writable_bit (key_spec keyref))) [
      | inr (code, refused) ↦ let bad = rw refused at h in cc
      | inl (u, allowed) ↦ let same = rw allowed at h in rw same at announces
    ]
