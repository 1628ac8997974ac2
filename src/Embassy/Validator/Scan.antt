-- ===== src/Embassy/Validator/Scan.antt =====
-- UTF-8 validation as a fold over the bytes, and what it says of a validation that stops early.
use qup.Prelude.{
  ℕ, zero, suc, ◌+◌, ◌≤◌, ◌≡◌, refl, ap, ◌∙◌, Option, none, some, [], ◌∷◌, ◌++◌, append_assoc,
  Bytes, Result, ok, err, drop, length, length-append, arith, append-nil,
}
use qup.Wire.Utf8.{
  Utf8Error, Utf8State, boundary, expects, advance, bytes_read, bad_len, valid_after,
  run_utf8_validation, lead,
}

abbrev pub bind_state : Option Utf8State → (Utf8State → Option Utf8State) → Option Utf8State
bind_state none f = none
bind_state (some s) f = f s

-- The state after some bytes; `none` when one does not fit.
unfoldable pub scan : Utf8State → Bytes → Option Utf8State
scan s [] = some s
scan s (b ∷ bs) = bind_state (advance s b) (λ t. scan t bs)

pub scan-append :
    (s : Utf8State) (xs ys : Bytes) → scan s (xs ++ ys) ≡ bind_state (scan s xs) (λ t. scan t ys)
unfolding scan
scan-append s [] ys = refl
scan-append s (b ∷ xs) ys = go (advance s b) (λ t. scan-append t xs ys)
  where
    go :
        (r : Option Utf8State)
        → ((t : Utf8State) → scan t (xs ++ ys) ≡ bind_state (scan t xs) (λ u. scan u ys))
        → bind_state r (λ t. scan t (xs ++ ys))
          ≡ bind_state (bind_state r (λ t. scan t xs)) (λ t. scan t ys)
    go none rest = refl
    go (some t) rest = rest t

-- What a character may still need is at most three bytes, together with what is there.
abbrev pub Small : Utf8State → Type 0
Small boundary = Unit {0}
Small (expects lo hi after read) = after + read ≤ 3

-- The next state holds one byte more, unless a character is complete.
abbrev Follows : Utf8State → Utf8State → Type 0
Follows s boundary = Unit {0}
Follows s (expects lo hi after read) = read ≡ bytes_read s + 1

advance-Small : (s t : Utf8State) (b : ℕ) → Small s → advance s b ≡ some t → Small t × Follows s t
unfolding advance lead
advance-Small boundary t b small h = ground arith
advance-Small (expects lo hi zero read) t b small h = ground arith
advance-Small (expects lo hi (suc after) read) t b small h = ground arith

abbrev pub IsUnfinished : Utf8State → Type 0
IsUnfinished boundary = ⊥
IsUnfinished (expects lo hi after read) = Unit {0}

-- What the result of a validation says; `p` are the bytes of the current character. An error without
-- a length leaves the bytes of an unfinished character.
abbrev pub Stops : ℕ → Bytes → Utf8State → Bytes → ℕ → Option ℕ → Type 0
Stops n p s bs valid_up_to (some k) = scan s bs ≡ none
Stops n p s bs valid_up_to none =
    (d : ℕ) × (t : Utf8State) × (valid_up_to ≡ n + d)
    × (scan s bs ≡ some t)
    × (scan boundary (drop d (p ++ bs)) ≡ some t)
    × (length (drop d (p ++ bs)) ≡ bytes_read t)
    × Small t
    × IsUnfinished t

abbrev pub Says : ℕ → Bytes → Utf8State → Bytes → Result (Unit {0}) Utf8Error → Type 0
Says n p s bs (ok u) = scan s bs ≡ some boundary
Says n p s bs (err e) = Stops n p s bs e.valid_up_to e.error_len

drop_past : (p : Bytes) (b d : ℕ) (bs : Bytes) → drop (length p + 1 + d) (p ++ b ∷ bs) ≡ drop d bs
drop_past [] b d bs = ap (λ k. drop k (b ∷ bs)) next
  where
    next : 0 + 1 + d ≡ suc d
    next = omega arith
drop_past (x ∷ p) b d bs = ap (λ k. drop k (x ∷ (p ++ b ∷ bs))) next ∙ drop_past p b d bs
  where
    next : suc (length p) + 1 + d ≡ suc (length p + 1 + d)
    next = omega arith

-- The byte completed a character.
completed :
    (n : ℕ) (p : Bytes) (s : Utf8State) (b : ℕ) (bs : Bytes) (r : Result (Unit {0}) Utf8Error)
    → length p ≡ bytes_read s
    → advance s b ≡ some boundary
    → Says (n + bytes_read s + 1) [] boundary bs r
    → Says n p s (b ∷ bs) r
unfolding scan
completed n p s b bs (ok u) len next says = rw next says
completed n p s b bs (err e) len next says = go e.error_len says
  where
    go :
        (l : Option ℕ)
        → Stops (n + bytes_read s + 1) [] boundary bs e.valid_up_to l
        → Stops n p s (b ∷ bs) e.valid_up_to l
    go (some k) says = rw next says
    go none (d, t, v, scanned, left, counted, small, unfinished) =
        let same = drop_past p b d bs in
        (
          length p + 1 + d,
          t,
          omega (arith, v, len),
          rw next scanned,
          ap (scan boundary) same ∙ left,
          ap length same ∙ counted,
          small,
          unfinished,
        )

-- The byte is one more of an unfinished character.
continued :
    (n : ℕ) (p : Bytes) (s t : Utf8State) (b : ℕ) (bs : Bytes) (r : Result (Unit {0}) Utf8Error)
    → advance s b ≡ some t
    → Says n (p ++ b ∷ []) t bs r
    → Says n p s (b ∷ bs) r
unfolding scan
continued n p s t b bs (ok u) next says = rw next says
continued n p s t b bs (err e) next says = go e.error_len says
  where
    go :
        (l : Option ℕ)
        → Stops n (p ++ b ∷ []) t bs e.valid_up_to l
        → Stops n p s (b ∷ bs) e.valid_up_to l
    go (some k) says = rw next says
    go none (d, u, v, scanned, left, counted, small, unfinished) =
        let same = append_assoc p (b ∷ []) bs in
        (d, u, v, rw next scanned, rw same at left, rw same at counted, small, unfinished)

abbrev pub Held : Bytes → Utf8State → Type 0
Held p s = Small s × (scan boundary p ≡ some s) × (length p ≡ bytes_read s)

step_to :
    (n : ℕ) (s t : Utf8State) (b : ℕ) (bs : Bytes)
    → advance s b ≡ some t
    → run_utf8_validation n s (b ∷ bs) ≡ run_utf8_validation (valid_after n s t) t bs
unfolding run_utf8_validation
step_to n s t b bs next = rw (next, run_utf8_validation) refl

step_none :
    (n : ℕ) (s : Utf8State) (b : ℕ) (bs : Bytes)
    → advance s b ≡ none
    → run_utf8_validation n s (b ∷ bs)
      ≡ err (record { valid_up_to = n; error_len = some (bad_len s) })
unfolding run_utf8_validation
step_none n s b bs next = rw (next, run_utf8_validation) refl

scan_none : (s : Utf8State) (b : ℕ) (bs : Bytes) → advance s b ≡ none → scan s (b ∷ bs) ≡ none
unfolding scan
scan_none s b bs next = rw next refl

pub run_utf8_validation-Says :
    (n : ℕ) (p : Bytes) (s : Utf8State) (bs : Bytes)
    → Held p s
    → Says n p s bs (run_utf8_validation n s bs)
unfolding run_utf8_validation scan
run_utf8_validation-Says n p boundary [] held = refl
run_utf8_validation-Says n p (expects lo hi after read) [] (small, scanned, len) =
    let same = append-nil p in
    (0, expects lo hi after read, omega arith, refl, rw same scanned, rw same len, small, tt)
run_utf8_validation-Says n p s (b ∷ bs) (small, scanned, len) =
    go (advance s b) refl (λ m q t held. run_utf8_validation-Says m q t bs held)
  where
    go :
        (r : Option Utf8State)
        → advance s b ≡ r
        → ((m : ℕ) (q : Bytes) (t : Utf8State)
            → Held q t
            → Says m q t bs (run_utf8_validation m t bs))
        → Says n p s (b ∷ bs) (run_utf8_validation n s (b ∷ bs))
    go none next rest = rw (step_none n s b bs next) (scan_none s b bs next)
    go (some boundary) next rest =
        let m = n + bytes_read s + 1 in
        rw (step_to n s boundary b bs next) (
          completed n p s b bs (run_utf8_validation m boundary bs) len next
            (rest m [] boundary (tt, refl, refl)))
    go (some (expects lo hi after read)) next rest =
        let t = expects lo hi after read in
        let (small', follows) = advance-Small s t b small next in
        let scanned' : scan boundary (p ++ b ∷ []) ≡ some t =
          scan-append boundary p (b ∷ []) ∙ rw (scanned, next) refl in
        let len' : length (p ++ b ∷ []) ≡ read =
          omega (arith, length-append p (b ∷ []), len, follows) in
        rw (step_to n s t b bs next) (
          continued n p s t b bs (run_utf8_validation n t bs) next
            (rest n (p ++ b ∷ []) t (small', scanned', len')))
