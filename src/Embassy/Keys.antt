-- ===== src/Embassy/Keys.antt =====
-- The key registry of crates/qup-embassy/src/lib.rs. Of an `ErasedKey` the registry
-- lookups use the key reference alone.
use qup.Prelude.{
  ℕ, zero, suc, ◌+◌, ◌≤◌, ◌<◌, ◌≡◌, ◌⊎◌, refl, ap, inl, inr, Bool, true, false, Bool-cases, Option,
  none, some, List, [], ◌∷◌, Bytes, ok, get_elem?, max, min, ◌==◌, ==_iff, if◌then◌else◌, arith,
}
use qup.Wire.Caps.{parse, check_pair}
use qup.Wire.Opcode.{class, expected_ordinary_response}

abbrev next_slot : Option ℕ → Option ℕ
next_slot none = none
next_slot (some slot) = some (suc slot)

-- `keys.iter().position(|key| key.keyref() == keyref)`
unfoldable pub find_slot : List ℕ → ℕ → Option ℕ
find_slot [] keyref = none
find_slot (key ∷ keys) keyref =
    let rest = find_slot keys keyref in if key == keyref then some 0 else next_slot rest

-- `keyref.saturating_add(1)` on u16
abbrev pub saturating_suc : ℕ → ℕ
saturating_suc keyref = min (keyref + 1) 65535

count_from : ℕ → List ℕ → ℕ
count_from max_keyref [] = max_keyref
count_from max_keyref (key ∷ keys) = count_from (max max_keyref (saturating_suc key)) keys

unfoldable pub key_count : List ℕ → ℕ
unfolding count_from
key_count keys = count_from 0 keys

-- BASE_CAPS and OBSERVABLE_CAPS
abbrev pub base_caps : Bytes
base_caps =
    b'P' ∷ b'k' ∷ b'I' ∷ b'i' ∷ b'C' ∷ b'c' ∷ b'S' ∷ b's' ∷ b'G' ∷ b'g' ∷ b'W' ∷ b'w' ∷ b'N' ∷ b'k'
    ∷ b'U' ∷ b'k' ∷ []

abbrev pub observable_caps : Bytes
observable_caps =
    b'P' ∷ b'k' ∷ b'I' ∷ b'i' ∷ b'C' ∷ b'c' ∷ b'S' ∷ b's' ∷ b'G' ∷ b'g' ∷ b'W' ∷ b'w' ∷ b'N' ∷ b'k'
    ∷ b'U' ∷ b'k' ∷ b'!' ∷ []

-- Server::caps
unfoldable pub caps : Bool → Bytes
caps has_observable_keys = if has_observable_keys then observable_caps else base_caps

-- The capability string of a server is well formed, and it announces notifications if the server
-- has observable keys.
pub parse-caps :
    (has_observable_keys : Bool)
    → parse (caps has_observable_keys)
      ≡ ok (record { raw = caps has_observable_keys; supports_changed = has_observable_keys })
unfolding parse caps check_pair class expected_ordinary_response
parse-caps true = refl
parse-caps false = refl

next_slot-get :
    (key : ℕ) (keys : List ℕ) (keyref slot : ℕ) (rest : Option ℕ)
    → ((i : ℕ) → find_slot keys keyref ≡ some i → get_elem? keys i ≡ some keyref)
    → find_slot keys keyref ≡ rest
    → next_slot rest ≡ some slot
    → get_elem? (key ∷ keys) slot ≡ some keyref
next_slot-get key keys keyref slot none later found h = cc
next_slot-get key keys keyref slot (some i) later found h =
    let slot_is : suc i ≡ slot = ground arith in rw⁻¹ slot_is (later i found)

find_slot-get :
    (keys : List ℕ) (keyref slot : ℕ)
    → find_slot keys keyref ≡ some slot
    → get_elem? keys slot ≡ some keyref
unfolding find_slot
find_slot-get [] keyref slot h = cc
find_slot-get (key ∷ keys) keyref slot h = elim (Bool-cases (key == keyref)) [
  | inl same ↦
      let found = rw same at h in
      let slot_is : 0 ≡ slot = ground arith in
      let key_is : key ≡ keyref = (==_iff key keyref).0 same in rw⁻¹ slot_is (ap some key_is)
  | inr other ↦
      next_slot-get key keys keyref slot (find_slot keys keyref) (find_slot-get keys keyref) refl
        (rw other at h)
]

count_from-le : (max_keyref : ℕ) (keys : List ℕ) → max_keyref ≤ count_from max_keyref keys
unfolding count_from
count_from-le max_keyref [] = omega arith
count_from-le max_keyref (key ∷ keys) =
    omega (arith, count_from-le (max max_keyref (saturating_suc key)) keys)

count_from-member :
    (max_keyref : ℕ) (keys : List ℕ) (keyref slot : ℕ)
    → get_elem? keys slot ≡ some keyref
    → saturating_suc keyref ≤ count_from max_keyref keys
unfolding count_from
count_from-member max_keyref [] keyref slot h = cc
count_from-member max_keyref (key ∷ keys) keyref zero h =
    let key_is : key ≡ keyref = ground arith in
    omega (arith, count_from-le (max max_keyref (saturating_suc key)) keys)
count_from-member max_keyref (key ∷ keys) keyref (suc slot) h =
    count_from-member (max max_keyref (saturating_suc key)) keys keyref slot h

-- A slot that is found holds the key reference, and a client that lists the reported number of keys
-- meets the reference, unless it is the largest one, which the 16-bit count cannot include.
pub find_slot-key_count :
    (keys : List ℕ) (keyref slot : ℕ)
    → find_slot keys keyref ≡ some slot
    → (get_elem? keys slot ≡ some keyref) × ((keyref < key_count keys) ⊎ (65535 ≤ keyref))
unfolding key_count
find_slot-key_count keys keyref slot h =
    let at_slot = find_slot-get keys keyref slot h in
    let le = count_from-member 0 keys keyref slot at_slot in (at_slot, ground arith)
