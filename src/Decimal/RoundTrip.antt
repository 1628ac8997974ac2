-- ===== src/Decimal/RoundTrip.antt =====
-- Texts of integers and the parser; texts without whitespace and `trim`.
use qup.Prelude.{
  ℕ, zero, suc, ◌+◌, ◌-◌, ◌*◌, ◌/◌, ◌%◌, ◌^◌, ◌≤◌, ◌<◌, ◌≡◌, refl, ap, inl, inr, Bool-cases, ◌≢◌,
  false, [], ◌∷◌, ◌++◌, List, All, ok, ◌>>=◌, ltb, ltb→lt, ne→==, Result-cases, arith,
}
use qup.Word.{ℤ, pos, negsuc, IsI64}
use qup.Decimal.{
  Text, ParseIntError, pos_overflow, neg_overflow, to_digit, push_digit, magnitude, parse_i64,
  digits, show_i64, is_whitespace, trim_start, trim_end, trim,
}

abbrev pub IsDigit : ℕ → Type 0
IsDigit c = (b'0' ≤ c) × (c ≤ b'9')

magnitude-append :
    (limit : ℕ) (overflow : ParseIntError) (total : ℕ) (xs ys : Text)
    → magnitude limit overflow total (xs ++ ys)
      ≡ (magnitude limit overflow total xs >>= λ next. magnitude limit overflow next ys)
unfolding magnitude
magnitude-append limit overflow total [] ys = refl
magnitude-append limit overflow total (x ∷ xs) ys =
    elim (Result-cases (push_digit limit overflow total x)) [
      | inl (next, e) ↦ rw e (magnitude-append limit overflow next xs ys)
      | inr (fault, e) ↦ rw e refl
    ]

zero_plus : (n : ℕ) → 0 * 10 + n ≡ n
zero_plus n = omega arith

quotient_small : (more n : ℕ) → n < 10 ^ suc (suc more) → n / 10 < 10 ^ suc more
quotient_small more n small = omega arith

pub All-append {ℓ κ} :
    {A : Type ℓ} (P : A → Type κ) (xs ys : List A) → All P xs → All P ys → All P (xs ++ ys)
All-append P [] ys h k = k
All-append P (x ∷ xs) ys h k = (h.0, All-append P xs ys h.1 k)

push_digit-ok :
    (limit : ℕ) (overflow : ParseIntError) (total d : ℕ)
    → d < 10
    → total * 10 + d ≤ limit
    → push_digit limit overflow total (b'0' + d) ≡ ok (total * 10 + d)
unfolding push_digit to_digit
push_digit-ok limit overflow total d small fits = ground arith

magnitude-digits :
    (limit : ℕ) (overflow : ParseIntError) (more n : ℕ)
    → n < 10 ^ suc more
    → n ≤ limit
    → magnitude limit overflow 0 (digits more n) ≡ ok n
unfolding magnitude digits
magnitude-digits limit overflow zero n small fits =
    cc (push_digit-ok limit overflow 0 n (omega arith) (omega arith), zero_plus n)
magnitude-digits limit overflow (suc more) n small fits = elim (Bool-cases (ltb n 10)) [
  | inl short ↦
      rw short
        (cc (push_digit-ok limit overflow 0 n (ltb→lt n 10 short) (omega arith), zero_plus n))
  | inr long ↦
      rw
        (
          long,
          magnitude-append limit overflow 0 (digits more (n / 10)) ((b'0' + n % 10) ∷ []),
          magnitude-digits limit overflow more (n / 10) (quotient_small more n small) (omega arith),
          push_digit-ok limit overflow (n / 10) (n % 10) (omega arith) (omega arith),
        )
        (ap ok (omega arith))
]

-- The text of a number starts with a digit and holds digits alone.
digits-Digits : (more n : ℕ) → n < 10 ^ suc more → All IsDigit (digits more n)
unfolding digits
digits-Digits zero n small = ((omega arith, omega arith), tt)
digits-Digits (suc more) n small = elim (Bool-cases (ltb n 10)) [
  | inl short ↦ rw short ((omega arith, omega (arith, ltb→lt n 10 short)), tt)
  | inr long ↦ rw long (
      All-append IsDigit (digits more (n / 10)) _
        (digits-Digits more (n / 10) (quotient_small more n small))
        ((omega arith, omega arith), tt))
]

snoc_some : (xs : Text) (y : ℕ) → xs ++ y ∷ [] ≢ []
snoc_some [] y = λ e. cc
snoc_some (x ∷ xs) y = λ e. cc

digits_some : (more n : ℕ) → digits more n ≢ []
unfolding digits
digits_some zero n = λ e. cc
digits_some (suc more) n = elim (Bool-cases (ltb n 10)) [
  | inl short ↦ rw short (λ e. cc)
  | inr long ↦ rw long (snoc_some (digits more (n / 10)) _)
]

-- The first character of the text of a number.
digits-starts :
    (more n : ℕ) → n < 10 ^ suc more → (c : ℕ) × (cs : Text) × (digits more n ≡ c ∷ cs) × IsDigit c
digits-starts more n small = first (digits more n) refl (digits-Digits more n small)
  where
    first :
        (text : Text)
        → digits more n ≡ text
        → All IsDigit text
        → (c : ℕ) × (cs : Text) × (digits more n ≡ c ∷ cs) × IsDigit c
    first [] e h = absurd (digits_some more n e)
    first (c ∷ cs) e h = (c, cs, e, h.0)

parse_digits :
    (c : ℕ) (cs : Text) (n : ℕ)
    → IsDigit c
    → magnitude (2 ^ 63 - 1) pos_overflow 0 (c ∷ cs) ≡ ok n
    → parse_i64 (c ∷ cs) ≡ ok (pos n)
unfolding parse_i64
parse_digits c cs n digit h =
    rw (ne→== c b'-' (λ e. omega (arith, e)), ne→== c b'+' (λ e. omega (arith, e)), h) refl

-- The text of an `i64` is parsed as that value.
pub parse_i64-show_i64 : (z : ℤ) → IsI64 z → parse_i64 (show_i64 z) ≡ ok z
unfolding show_i64
parse_i64-show_i64 (pos n) small =
    let (c, cs, e, digit) = digits-starts 18 n (omega arith) in
    rw e (
      parse_digits c cs n digit
        (rw e at (magnitude-digits (2 ^ 63 - 1) pos_overflow 18 n (omega arith) (omega arith))))
parse_i64-show_i64 (negsuc n) small =
    let (c, cs, e, digit) = digits-starts 18 (suc n) (omega arith) in
    let whole = magnitude-digits (2 ^ 63) neg_overflow 18 (suc n) (omega arith) (omega arith) in
    unfold parse_i64 in rw e (rw (rw e at whole) refl)

abbrev pub IsDark : Text → Type 0
IsDark = All (λ c. is_whitespace c ≡ false)

trim_start_dark : (text : Text) → IsDark text → trim_start text ≡ text
unfolding trim_start
trim_start_dark [] h = refl
trim_start_dark (c ∷ cs) h = rw (h.0) refl

trim_end_dark : (text : Text) → IsDark text → trim_end text ≡ text
unfolding trim_end
trim_end_dark [] h = refl
trim_end_dark (c ∷ cs) h = rw (h.0) (ap (◌∷◌ c) (trim_end_dark cs h.1))

pub trim_dark : (text : Text) → IsDark text → trim text ≡ text
unfolding trim
trim_dark text h = rw (trim_start_dark text h) (trim_end_dark text h)

digit_dark : (c : ℕ) → IsDigit c → is_whitespace c ≡ false
unfolding is_whitespace
digit_dark c h = ground arith

digits-IsDark : (text : Text) → All IsDigit text → IsDark text
digits-IsDark [] h = tt
digits-IsDark (c ∷ cs) h = (digit_dark c h.0, digits-IsDark cs h.1)

pub show_i64-IsDark : (z : ℤ) → IsI64 z → IsDark (show_i64 z)
unfolding show_i64
show_i64-IsDark (pos n) small = digits-IsDark _ (digits-Digits 18 n (omega arith))
show_i64-IsDark (negsuc n) small = (dash, digits-IsDark _ (digits-Digits 18 (suc n) (omega arith)))
  where
    dash : is_whitespace b'-' ≡ false
    dash = unfold is_whitespace in refl
