-- ===== src/Embassy/Perm.antt =====
-- `Perm` of crates/qup-embassy/src/lib.rs.
use Prim.Native.Nat.{bit_and, bit_or}
use qup.Prelude.{ℕ, ◌≡◌, refl, Bool, true, false, not, ok, ◌==◌}
use qup.Wire.Scalar.{
  readable_bit, writable_bit, observable_bit, new_key_flags, is_readable, is_writable,
  is_observable,
}

pub data Perm : Type 0 where
  none r w rw_ n rn wn rwn : Perm

unfoldable pub flags_bits : Perm → ℕ
flags_bits none = 0
flags_bits r = readable_bit
flags_bits w = writable_bit
flags_bits rw_ = bit_or readable_bit writable_bit
flags_bits n = observable_bit
flags_bits rn = bit_or readable_bit observable_bit
flags_bits wn = bit_or writable_bit observable_bit
flags_bits rwn = bit_or (bit_or readable_bit writable_bit) observable_bit

unfoldable pub readable : Perm → Bool
unfolding flags_bits
readable perm = not (bit_and (flags_bits perm) readable_bit == 0)

unfoldable pub writable : Perm → Bool
unfolding flags_bits
writable perm = not (bit_and (flags_bits perm) writable_bit == 0)

unfoldable pub observable : Perm → Bool
unfolding flags_bits
observable perm = not (bit_and (flags_bits perm) observable_bit == 0)

-- The rights that a permission's name spells, by its letters: R, W and N.
pub record Rights : Type 0 where
  pub reads : Bool
  pub writes : Bool
  pub notifies : Bool

unfoldable pub rights : Perm → Rights
rights none = record { reads = false; writes = false; notifies = false }
rights r = record { reads = true; writes = false; notifies = false }
rights w = record { reads = false; writes = true; notifies = false }
rights rw_ = record { reads = true; writes = true; notifies = false }
rights n = record { reads = false; writes = false; notifies = true }
rights rn = record { reads = true; writes = false; notifies = true }
rights wn = record { reads = false; writes = true; notifies = true }
rights rwn = record { reads = true; writes = true; notifies = true }

-- A permission's flags on the wire, for the node and for whoever decodes them.
pub record Shows (perm : Perm) : Type 0 where
  pub legal : new_key_flags (flags_bits perm) ≡ ok (flags_bits perm)
  pub node_side :
      (readable perm ≡ (rights perm).reads)
      × (writable perm ≡ (rights perm).writes)
      × (observable perm ≡ (rights perm).notifies)
  pub client_side :
      (is_readable (flags_bits perm) ≡ (rights perm).reads)
      × (is_writable (flags_bits perm) ≡ (rights perm).writes)
      × (is_observable (flags_bits perm) ≡ (rights perm).notifies)

-- The flags that a node sends for a permission are legal key flags, and both the node's own tests
-- and whoever decodes the flags find exactly the rights that the permission's name spells.
pub flags_bits-Shows : (perm : Perm) → Shows perm
unfolding flags_bits readable writable observable new_key_flags is_readable is_writable
    is_observable rights
flags_bits-Shows none = record {
  legal = refl;
  node_side = (refl, refl, refl);
  client_side = (refl, refl, refl);
}
flags_bits-Shows r = record {
  legal = refl;
  node_side = (refl, refl, refl);
  client_side = (refl, refl, refl);
}
flags_bits-Shows w = record {
  legal = refl;
  node_side = (refl, refl, refl);
  client_side = (refl, refl, refl);
}
flags_bits-Shows rw_ = record {
  legal = refl;
  node_side = (refl, refl, refl);
  client_side = (refl, refl, refl);
}
flags_bits-Shows n = record {
  legal = refl;
  node_side = (refl, refl, refl);
  client_side = (refl, refl, refl);
}
flags_bits-Shows rn = record {
  legal = refl;
  node_side = (refl, refl, refl);
  client_side = (refl, refl, refl);
}
flags_bits-Shows wn = record {
  legal = refl;
  node_side = (refl, refl, refl);
  client_side = (refl, refl, refl);
}
flags_bits-Shows rwn = record {
  legal = refl;
  node_side = (refl, refl, refl);
  client_side = (refl, refl, refl);
}
