-- ===== src/Tests/Embassy.antt =====
-- Tests of crates/qup-embassy/src/lib.rs.
use qup.Prelude.{
  Bool, true, false, not, ℕ, ◌^◌, ◌≤◌, ◌<◌, ◌≡◌, ◌⊎◌, refl, some, none, [], ◌∷◌, List, Bytes, ok,
  err, length, ltb, get_elem?, ◌==◌, if◌then◌else◌,
}
use qup.Wire.Codes
use qup.Wire.Error.{checksum_mismatch}
use qup.Wire.Checksum.{frame_sum, compute_checksum}
use qup.Wire.Frame.Layout.{assemble}
use qup.Embassy.Key.{
  Key, WireValueRef, WireValueError, bool_value, decode_bool_value, notify_changed, try_set,
  write_and_encode, encode_current_value, Updated, try_set-Updated,
  write_and_encode-encode_current_value,
}
use qup.Embassy.Perm.{rwn, observable, Shows, rn, flags_bits-Shows}
use qup.Embassy.Sum.{
  new_sum, add_byte, add_chunks, finish_sum, join, finish_sum-frame_sum, compute_segmented_checksum,
  compute_segmented_checksum-join,
}
use qup.Embassy.Keys.{find_slot, key_count, find_slot-key_count}

-- The payload of a KEY response in its segments.
abbrev segments : List Bytes
segments = (0x05 ∷ 0x00 ∷ 0x03 ∷ []) ∷ (b'l' ∷ b'e' ∷ b'd' ∷ []) ∷ []

finish_sum-frame_sum_example :
    finish_sum (add_byte (add_chunks (new_sum Codes.getkey 6) segments) 0x6f) ≡ (
      if frame_sum (assemble Codes.getkey 0 6 (join segments) 0x6f) == 0
      then ok tt
      else err (checksum_mismatch (frame_sum (assemble Codes.getkey 0 6 (join segments) 0x6f))))
finish_sum-frame_sum_example = finish_sum-frame_sum Codes.getkey 6 0x6f segments

compute_segmented_checksum-join_example : compute_segmented_checksum Codes.key segments ≡ (
    if ltb (length (join segments)) (2 ^ 16)
    then some (compute_checksum Codes.key (join segments))
    else none)
compute_segmented_checksum-join_example = compute_segmented_checksum-join Codes.key segments

flags_bits-Shows_example : Shows rn
flags_bits-Shows_example = flags_bits-Shows rn

abbrev keyrefs : List ℕ
keyrefs = 2 ∷ 4 ∷ 7 ∷ []

finds_four : find_slot keyrefs 4 ≡ some 1
unfolding find_slot
finds_four = refl

find_slot-key_count_example :
    (get_elem? keyrefs 1 ≡ some 4) × ((4 < key_count keyrefs) ⊎ (65535 ≤ 4))
find_slot-key_count_example = find_slot-key_count keyrefs 4 1 finds_four

-- An observable flag, attached to a server, which a WRITE sets.
abbrev flag : Key Bool
flag = record {
  name = b'f' ∷ [];
  keyref = 3;
  value = false;
  change_signal = false;
  attached = true;
  notifier_signal = false;
  generation = 4294967295;
}

abbrev flag_set : Key Bool
flag_set = record flag {
  value = true;
  change_signal = true;
  notifier_signal = true;
  generation = 0;
}

sets_flag :
    write_and_encode bool_value rwn (WireValueRef.bool true) flag
    ≡ (ok (0x01 ∷ 0x01 ∷ []), flag_set)
unfolding write_and_encode notify_changed observable
sets_flag = refl

write_and_encode-encode_current_value_example :
    (encode_current_value bool_value rwn flag_set ≡ ok (0x01 ∷ 0x01 ∷ []))
    × (decoded : Bool) × (decode_bool_value (WireValueRef.bool true) ≡ ok decoded)
    × Updated bool_value rwn flag decoded flag_set
write_and_encode-encode_current_value_example =
    write_and_encode-encode_current_value bool_value rwn (WireValueRef.bool true) flag flag_set
      (0x01 ∷ 0x01 ∷ []) sets_flag

try_set-Updated_example :
    ((try_set bool_value rwn true flag).0 ≡ ok (not (bool_value.same false true))
      × Updated bool_value rwn flag true (try_set bool_value rwn true flag).1)
    ⊎ ((e : WireValueError) × (bool_value.validate true ≡ err e)
        × (try_set bool_value rwn true flag ≡ (err e, flag)))
try_set-Updated_example = try_set-Updated bool_value rwn true flag
