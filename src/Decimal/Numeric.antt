-- ===== src/Decimal/Numeric.antt =====
-- Texts that are digits after an optional sign, for the parser and for the number field of
-- crates/qup-test-tui/src/app.rs.
use qup.Prelude.{
  ℕ, ◌≡◌, inl, inr, ◌⊎◌, Bool-cases, true, ◌&&◌, ◌||◌, [], ◌∷◌, ◌++◌, All, ok, Result-cases, map_ok,
  is_empty, within, ◌==◌, arith,
}
use qup.Word.{ℤ}
use qup.Decimal.{Text, ParseIntError, to_digit, push_digit, magnitude, i64_digits, parse_i64, pop}
use qup.Decimal.RoundTrip.{IsDigit, All-append}

abbrev pub IsSigned : ℕ → Type 0
IsSigned c = IsDigit c ⊎ ((c ≡ b'-') ⊎ (c ≡ b'+'))

abbrev pub IsNumeric : Text → Type 0
IsNumeric [] = Unit
IsNumeric (c ∷ cs) = IsSigned c × All IsDigit cs

pop-Digits : (text : Text) → All IsDigit text → All IsDigit (pop text)
unfolding pop
pop-Digits [] h = tt
pop-Digits (c ∷ []) h = tt
pop-Digits (c ∷ d ∷ cs) h = (h.0, pop-Digits (d ∷ cs) h.1)

pub pop-IsNumeric : (text : Text) → IsNumeric text → IsNumeric (pop text)
unfolding pop
pop-IsNumeric [] h = tt
pop-IsNumeric (c ∷ []) h = tt
pop-IsNumeric (c ∷ d ∷ cs) h = (h.0, pop-Digits (d ∷ cs) h.1)

pub snoc-IsNumeric :
    (text : Text) (c : ℕ)
    → (within b'0' b'9' c || ((c == b'-') && is_empty text)) ≡ true
    → IsNumeric text
    → IsNumeric (text ++ c ∷ [])
snoc-IsNumeric [] c typed h = (ground arith, tt)
snoc-IsNumeric (d ∷ ds) c typed h = (h.0, All-append IsDigit ds (c ∷ []) h.1 (ground arith, tt))

push_digit-Digit :
    (limit : ℕ) (overflow : ParseIntError) (total c : ℕ) {next : ℕ}
    → push_digit limit overflow total c ≡ ok next
    → IsDigit c
unfolding push_digit to_digit
push_digit-Digit limit overflow total c h = ground arith

magnitude-Digits :
    (limit : ℕ) (overflow : ParseIntError) (total : ℕ) (text : Text) {n : ℕ}
    → magnitude limit overflow total text ≡ ok n
    → All IsDigit text
unfolding magnitude
magnitude-Digits limit overflow total [] h = tt
magnitude-Digits limit overflow total (c ∷ cs) h =
    elim (Result-cases (push_digit limit overflow total c)) [
      | inl (next, e) ↦ (
        push_digit-Digit limit overflow total c e,
        magnitude-Digits limit overflow next cs (rw e at h),
      )
      | inr (fault, e) ↦ let bad = rw e at h in cc
    ]

parsed-Digits :
    (limit : ℕ) (overflow : ParseIntError) (text : Text) (f : ℕ → ℤ) {z : ℤ}
    → map_ok f (magnitude limit overflow 0 text) ≡ ok z
    → All IsDigit text
parsed-Digits limit overflow text f h = elim (Result-cases (magnitude limit overflow 0 text)) [
  | inl (n, e) ↦ magnitude-Digits limit overflow 0 text e
  | inr (fault, e) ↦ let bad = rw e at h in cc
]

i64_digits-IsNumeric : (c : ℕ) (cs : Text) {z : ℤ} → i64_digits c cs ≡ ok z → IsNumeric (c ∷ cs)
i64_digits-IsNumeric c cs h = elim (Bool-cases (c == b'-')) [
  | inl minus ↦ (ground arith, parsed-Digits _ _ cs _ (rw minus at h))
  | inr other ↦ elim (Bool-cases (c == b'+')) [
    | inl plus ↦ (ground arith, parsed-Digits _ _ cs _ (rw (other, plus) at h))
    | inr digit ↦
        let all = parsed-Digits _ _ (c ∷ cs) _ (rw (other, digit) at h) in (inl (all.0), all.1)
  ]
]

-- A text that is parsed as an integer is digits after an optional sign.
pub parse_i64-IsNumeric : (text : Text) {z : ℤ} → parse_i64 text ≡ ok z → IsNumeric text
unfolding parse_i64
parse_i64-IsNumeric [] h = tt
parse_i64-IsNumeric (c ∷ cs) h = elim (Bool-cases (((c == b'-') || (c == b'+')) && is_empty cs)) [
  | inl alone ↦ let bad = rw alone at h in cc
  | inr more ↦ i64_digits-IsNumeric c cs (rw more at h)
]
