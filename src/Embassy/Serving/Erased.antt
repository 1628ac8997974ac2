-- ===== src/Embassy/Serving/Erased.antt =====
-- `impl ErasedKey for Key` in crates/qup-embassy/src/lib.rs.
use qup.Embassy.Perm.{Perm, flags_bits, readable, writable, observable}
use qup.Embassy.Key.{QupValue, Key, encode_current_value, write_and_encode, attach_notifier}
use qup.Embassy.Serving.{ErasedKey}

unfoldable pub erased_key : {T : Type 0} → QupValue T → Perm → ErasedKey (Key T)
unfolding flags_bits readable writable observable encode_current_value write_and_encode
    attach_notifier
erased_key rules perm = record {
  keyref = λ key. key.keyref;
  keyflags = λ key. flags_bits perm;
  name = λ key. key.name;
  readable = λ key. readable perm;
  writable = λ key. writable perm;
  observable = λ key. observable perm;
  generation = λ key. key.generation;
  encode_current_value = encode_current_value rules perm;
  write_and_encode = write_and_encode rules perm;
  attach_notifier = λ key. (attach_notifier rules perm key).1;
}
