-- ===== src/Word/BigEndian.antt =====
-- `to_be_bytes` and `from_be_bytes` are inverse, at every width.
use native.Mathlib.Nat.{pow-suc, zero-add, add-zero}
use qup.Prelude.{
  ℕ, zero, suc, ◌+◌, ◌*◌, ◌/◌, ◌%◌, ◌^◌, ◌<◌, ◌≤◌, ◌≡◌, refl, sym, ap, ◌∙◌, [], ◌∷◌, ◌++◌,
  append-nil, append_assoc, Bytes, length, length-append, arith,
}
use qup.Word.{AllBytes, IsByte, to_be_bytes, from_be_onto, from_be_bytes}

pub length-to_be_bytes : (width v : ℕ) → length (to_be_bytes width v) ≡ width
unfolding to_be_bytes
length-to_be_bytes zero v = refl
length-to_be_bytes (suc width) v = omega (
  arith,
  length-append {0} (to_be_bytes width (v / 256)) (v % 256 ∷ []),
  length-to_be_bytes width (v / 256),
)

pub AllBytes-append : (xs ys : Bytes) → AllBytes xs → AllBytes ys → AllBytes (xs ++ ys)
AllBytes-append [] ys p q = q
AllBytes-append (x ∷ xs) ys p q = (p.0, AllBytes-append xs ys p.1 q)

pub to_be_bytes-AllBytes : (width v : ℕ) → AllBytes (to_be_bytes width v)
unfolding to_be_bytes
to_be_bytes-AllBytes zero v = tt
to_be_bytes-AllBytes (suc width) v =
    AllBytes-append (to_be_bytes width (v / 256)) (v % 256 ∷ [])
      (to_be_bytes-AllBytes width (v / 256)) (omega arith, tt)

from_be_onto-append :
    (acc : ℕ) (xs : Bytes) (b : ℕ) → from_be_onto acc (xs ++ b ∷ []) ≡ from_be_onto acc xs * 256 + b
unfolding from_be_onto
from_be_onto-append acc [] b = refl
from_be_onto-append acc (x ∷ xs) b = from_be_onto-append (acc * 256 + x) xs b

-- A word that fits the width is read back from its bytes.
pub from_be_bytes-to_be_bytes :
    (width v : ℕ) → v < 256 ^ width → from_be_bytes (to_be_bytes width v) ≡ v
unfolding from_be_bytes to_be_bytes
from_be_bytes-to_be_bytes zero v h = omega arith
from_be_bytes-to_be_bytes (suc width) v h =
    from_be_onto-append 0 (to_be_bytes width (v / 256)) (v % 256)
    ∙ omega (arith, from_be_bytes-to_be_bytes width (v / 256) (omega (arith, pow-suc 256 width)))

shift_suc : (m n : ℕ) → suc m + n ≡ m + suc n
shift_suc m n = omega arith

to_be_bytes_push :
    (n acc b : ℕ) → IsByte b → to_be_bytes (suc n) (acc * 256 + b) ≡ to_be_bytes n acc ++ b ∷ []
unfolding to_be_bytes
to_be_bytes_push n acc b h =
    let high : (acc * 256 + b) / 256 ≡ acc = omega arith in
    let low : (acc * 256 + b) % 256 ≡ b = omega arith in rw (high, low)

to_be_bytes-onto :
    (n acc : ℕ) (xs : Bytes)
    → AllBytes xs
    → to_be_bytes (length xs + n) (from_be_onto acc xs) ≡ to_be_bytes n acc ++ xs
unfolding from_be_onto
to_be_bytes-onto n acc [] h = simp (zero-add, append-nil)
to_be_bytes-onto n acc (b ∷ xs) h = rw (shift_suc (length xs) n) (
    to_be_bytes-onto (suc n) (acc * 256 + b) xs h.1
    ∙ ap (λ ys. ys ++ xs) (to_be_bytes_push n acc b h.0)
    ∙ append_assoc (to_be_bytes n acc) (b ∷ []) xs)

-- Bytes are written back by the word that they hold.
pub to_be_bytes-from_be_bytes :
    (xs : Bytes) → AllBytes xs → to_be_bytes (length xs) (from_be_bytes xs) ≡ xs
unfolding from_be_bytes
to_be_bytes-from_be_bytes xs h =
    ap (λ n. to_be_bytes n (from_be_onto 0 xs)) (sym (add-zero (length xs)))
    ∙ unfold to_be_bytes in to_be_bytes-onto 0 0 xs h

digit_mono : (a b p : ℕ) → IsByte b → (a * 256 + b + 1) * p ≤ (a * 256 + 256) * p
digit_mono a b p h = grind arith

one_digit_more :
    (x a b p q : ℕ) → IsByte b → x < (a * 256 + b + 1) * p → q ≡ p * 256 → x < (a + 1) * q
one_digit_more x a b p q h lt e = rw e (omega (arith, digit_mono a b p h))

from_be_onto-lt :
    (acc : ℕ) (xs : Bytes) → AllBytes xs → from_be_onto acc xs < (acc + 1) * 256 ^ length xs
unfolding from_be_onto
from_be_onto-lt acc [] h = omega arith
from_be_onto-lt acc (b ∷ xs) h =
    one_digit_more (from_be_onto (acc * 256 + b) xs) acc b (256 ^ length xs) (256 ^ suc (length xs))
      h.0 (from_be_onto-lt (acc * 256 + b) xs h.1) (pow-suc 256 (length xs))

pub from_be_bytes-lt : (xs : Bytes) → AllBytes xs → from_be_bytes xs < 256 ^ length xs
unfolding from_be_bytes
from_be_bytes-lt xs h = omega (arith, from_be_onto-lt 0 xs h)
