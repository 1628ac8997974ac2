-- ===== src/Embassy/Validator/Chunks.antt =====
-- A string that arrives in chunks is validated like the whole string.
use qup.Prelude.{
  ◌↔◌, ℕ, ◌≤◌, ◌≡◌, refl, sym, ◌∙◌, inl, inr, ◌⊎◌, true, false, Bool-cases, Option, none, some,
  List, [], ◌∷◌, ◌++◌, append_assoc, append-nil, Bytes, Result, ok, err, length, arith, ◌||◌,
  Result-cases,
}
use qup.Word.{contains}
use qup.Wire.Utf8.{
  Utf8Error, Utf8State, boundary, expects, run_utf8_validation, from_utf8, from_utf8_same, IsUtf8,
}
use qup.Wire.Error.{PayloadError, invalid_utf8}
use qup.Embassy.Sum.{join}
use qup.Embassy.Validator.{
  Utf8StreamValidator, new_validator, Checking, noted, check_chunk, payload_error, keep_leftover,
  feed_buffer, feed, finish_validator,
}
use qup.Embassy.Validator.Scan.{scan, scan-append, Stops, Says, Held, run_utf8_validation-Says}

pub contains-append :
    (xs ys : Bytes) (value : ℕ)
    → contains (xs ++ ys) value ≡ (contains xs value || contains ys value)
unfolding contains
contains-append [] ys value = refl
contains-append (x ∷ xs) ys value = ground (arith, contains-append xs ys value)

-- What a chunk does to a tail that holds the bytes of the state `s`.
abbrev Feeds : Utf8State → Bytes → Result (Unit {0}) PayloadError × Utf8StreamValidator → Type 0
Feeds s chunk (ok u, tail) =
    (contains chunk 0x00 ≡ false) × (t : Utf8State) × (scan s chunk ≡ some t) × Held tail t
Feeds s chunk (err e, tail) = (contains chunk 0x00 ≡ true) ⊎ (scan s chunk ≡ none)

abbrev as_str : Bytes → Result (Unit {0}) Utf8Error → Result Bytes Utf8Error
as_str bs r = elim r [ ok _ ↦ ok bs | err e ↦ err e ]

module _ (s : Utf8State) (chunk : Bytes) (tail : Utf8StreamValidator)
    (whole : scan boundary (tail ++ chunk) ≡ scan s chunk)
    (clean : contains chunk 0x00 ≡ false) where
  keep_leftover-Feeds :
      (e : Utf8Error) (l : Option ℕ)
      → Stops 0 [] boundary (tail ++ chunk) e.valid_up_to l
      → Feeds s chunk (keep_leftover (tail ++ chunk) e l tail)
  keep_leftover-Feeds e (some k) stops = inr (sym whole ∙ stops)
  keep_leftover-Feeds e none (d, t, v, scanned, left, counted, small, unfinished) =
      let same : d ≡ e.valid_up_to = omega (arith, v) in
      (clean, t, sym whole ∙ scanned, (small, rw same at left, rw same at counted))

  feed_buffer-Feeds :
      (r : Result (Unit {0}) Utf8Error)
      → Says 0 [] boundary (tail ++ chunk) r
      → Feeds s chunk (feed_buffer (tail ++ chunk) (as_str (tail ++ chunk) r) tail)
  unfolding scan
  feed_buffer-Feeds (ok u) says = (clean, boundary, sym whole ∙ says, (tt, refl, refl))
  feed_buffer-Feeds (err e) says = keep_leftover-Feeds e e.error_len says

empty-Held : Held [] boundary
unfolding scan
empty-Held = (tt, refl, refl)

feed-Feeds :
    (s : Utf8State) (chunk : Bytes) (tail : Utf8StreamValidator)
    → Held tail s
    → Feeds s chunk (feed chunk tail)
unfolding feed from_utf8
feed-Feeds s chunk tail (small, scanned, len) = elim (Bool-cases (contains chunk 0x00)) [
  | inl nul ↦ rw nul (inl nul)
  | inr clean ↦
      let whole : scan boundary (tail ++ chunk) ≡ scan s chunk =
        scan-append boundary tail chunk ∙ rw scanned refl in
      rw clean (
        feed_buffer-Feeds s chunk tail whole clean (run_utf8_validation 0 boundary (tail ++ chunk))
          (run_utf8_validation-Says 0 [] boundary (tail ++ chunk) empty-Held))
]

-- The string up to here, with a fault or with the state that its bytes lead to.
abbrev pub Progress : Bytes → Checking → Type 0
Progress bytes (some e, tail) = (contains bytes 0x00 ≡ true) ⊎ (scan boundary bytes ≡ none)
Progress bytes (none, tail) =
    (contains bytes 0x00 ≡ false) × (t : Utf8State) × (scan boundary bytes ≡ some t) × Held tail t

pub new_validator-Progress : Progress [] (none, new_validator)
unfolding contains scan
new_validator-Progress = (refl, boundary, refl, empty-Held)

fault_stays :
    (bytes chunk : Bytes)
    → (contains bytes 0x00 ≡ true) ⊎ (scan boundary bytes ≡ none)
    → (contains (bytes ++ chunk) 0x00 ≡ true) ⊎ (scan boundary (bytes ++ chunk) ≡ none)
fault_stays bytes chunk (inl nul) = inl (contains-append bytes chunk 0x00 ∙ rw nul refl)
fault_stays bytes chunk (inr bad) = inr (scan-append boundary bytes chunk ∙ rw bad refl)

noted-Progress :
    (bytes chunk : Bytes) (s : Utf8State) (x : Result (Unit {0}) PayloadError × Utf8StreamValidator)
    → contains bytes 0x00 ≡ false
    → scan boundary bytes ≡ some s
    → Feeds s chunk x
    → Progress (bytes ++ chunk) (noted x)
noted-Progress bytes chunk s (ok u, tail) clean scanned (clean', t, scanned', held) = (
  contains-append bytes chunk 0x00 ∙ rw (clean, clean') refl,
  t,
  scan-append boundary bytes chunk ∙ rw scanned scanned',
  held,
)
noted-Progress bytes chunk s (err e, tail) clean scanned (inl nul) =
    inl (contains-append bytes chunk 0x00 ∙ rw (clean, nul) refl)
noted-Progress bytes chunk s (err e, tail) clean scanned (inr bad) =
    inr (scan-append boundary bytes chunk ∙ rw scanned bad)

pub check_chunk-Progress :
    (bytes chunk : Bytes) (checking : Checking)
    → Progress bytes checking
    → Progress (bytes ++ chunk) (check_chunk chunk checking)
unfolding check_chunk
check_chunk-Progress bytes chunk (some e, tail) fault = fault_stays bytes chunk fault
check_chunk-Progress bytes chunk (none, tail) (clean, s, scanned, held) =
    noted-Progress bytes chunk s (feed chunk tail) clean scanned (feed-Feeds s chunk tail held)

-- A validation succeeds when the bytes end at the end of a character.
Says-IsUtf8 :
    (bs : Bytes) (r : Result (Unit {0}) Utf8Error)
    → Says 0 [] boundary bs r
    → (as_str bs r ≡ ok bs) ↔ (scan boundary bs ≡ some boundary)
Says-IsUtf8 bs (ok u) says = (λ h. says, λ h. refl)
Says-IsUtf8 bs (err e) says = (λ h. cc, λ h. absurd (stopped e.error_len says h))
  where
    stopped :
        (l : Option ℕ)
        → Stops 0 [] boundary bs e.valid_up_to l
        → scan boundary bs ≡ some boundary
        → ⊥
    stopped (some k) stops h = cc
    stopped none (d, boundary, v, scanned, left, counted, small, unfinished) h = unfinished
    stopped none (d, expects lo hi after read, v, scanned, left, counted, small, unfinished) h = cc

IsUtf8-scan : (bs : Bytes) → IsUtf8 bs ↔ (scan boundary bs ≡ some boundary)
unfolding from_utf8
IsUtf8-scan bs =
    Says-IsUtf8 bs (run_utf8_validation 0 boundary bs)
      (run_utf8_validation-Says 0 [] boundary bs empty-Held)

-- What is found in the end, for the whole string.
abbrev pub Found : Bytes → Option PayloadError → Type 0
Found bytes none = (contains bytes 0x00 ≡ false) × IsUtf8 bytes
Found bytes (some e) = (contains bytes 0x00 ≡ true) ⊎ ¬ IsUtf8 bytes

same_end :
    (bytes tail : Bytes) (t : Utf8State)
    → scan boundary bytes ≡ some t
    → scan boundary tail ≡ some t
    → IsUtf8 bytes ↔ IsUtf8 tail
same_end bytes tail t scanned held = (
  λ h. (IsUtf8-scan tail).1 (held ∙ sym scanned ∙ (IsUtf8-scan bytes).0 h),
  λ h. (IsUtf8-scan bytes).1 (scanned ∙ sym held ∙ (IsUtf8-scan tail).0 h),
)

empty-IsUtf8 : IsUtf8 []
unfolding from_utf8
empty-IsUtf8 = refl

tail_error : Result Bytes Utf8Error → Option PayloadError
tail_error (ok str) = none
tail_error (err e) = some (invalid_utf8 e)

payload_error-tail :
    (b : ℕ) (tail : Bytes) (r : Result Bytes Utf8Error)
    → from_utf8 (b ∷ tail) ≡ r
    → payload_error (none, b ∷ tail) ≡ tail_error r
unfolding payload_error finish_validator tail_error
payload_error-tail b tail (ok str) h = rw (h, payload_error, finish_validator) refl
payload_error-tail b tail (err e) h = rw (h, payload_error, finish_validator) refl

pub payload_error-Found :
    (bytes : Bytes) (checking : Checking)
    → Progress bytes checking
    → Found bytes (payload_error checking)
unfolding payload_error finish_validator tail_error
payload_error-Found bytes (some e, tail) (inl nul) = inl nul
payload_error-Found bytes (some e, tail) (inr bad) =
    inr (λ h. let good = (IsUtf8-scan bytes).0 h in cc)
payload_error-Found bytes (none, []) (clean, t, scanned, held) =
    (clean, (same_end bytes [] t scanned held.1).1 empty-IsUtf8)
payload_error-Found bytes (none, b ∷ tail) (clean, t, scanned, held) =
    elim (Result-cases (from_utf8 (b ∷ tail))) [
      | inl (str, good) ↦
          let whole : IsUtf8 (b ∷ tail) = rw (from_utf8_same (b ∷ tail) good) at good in
          rw (payload_error-tail b tail (ok str) good)
            (clean, (same_end bytes (b ∷ tail) t scanned held.1).1 whole)
      | inr (e, bad) ↦
          rw (payload_error-tail b tail (err e) bad)
            (inr (λ h. let whole = (same_end bytes (b ∷ tail) t scanned held.1).0 h in cc))
    ]

-- The rounds over a list of chunks.
abbrev pub check_chunks : List Bytes → Checking → Checking
check_chunks [] checking = checking
check_chunks (chunk ∷ chunks) checking = check_chunks chunks (check_chunk chunk checking)

check_chunks-Progress :
    (bytes : Bytes) (chunks : List Bytes) (checking : Checking)
    → Progress bytes checking
    → Progress (bytes ++ join chunks) (check_chunks chunks checking)
check_chunks-Progress bytes [] checking progress = rw (append-nil bytes) progress
check_chunks-Progress bytes (chunk ∷ chunks) checking progress =
    rw⁻¹ (append_assoc bytes chunk (join chunks)) (
      check_chunks-Progress (bytes ++ chunk) chunks (check_chunk chunk checking)
        (check_chunk-Progress bytes chunk checking progress))

-- However an oversized string is cut into chunks, the loop and the validator find a fault exactly
-- when the whole string contains NUL or is not UTF-8.
pub check_chunks-Found :
    (chunks : List Bytes)
    → Found (join chunks) (payload_error (check_chunks chunks (none, new_validator)))
check_chunks-Found chunks =
    payload_error-Found (join chunks) (check_chunks chunks (none, new_validator))
      (check_chunks-Progress [] chunks (none, new_validator) new_validator-Progress)

tail_fits : (bytes : Bytes) (tail : Bytes) → Progress bytes (none, tail) → length tail ≤ 3
tail_fits bytes tail (clean, boundary, scanned, (small, held, len)) = omega (arith, len)
tail_fits bytes tail (clean, expects lo hi after read, scanned, (small, held, len)) =
    omega (arith, len, small)

-- The tail of a validator that has found no fault has three bytes at most, so that the array of the
-- tail, and the buffer that holds a tail and a chunk, are never overrun.
pub check_chunks-le :
    (chunks : List Bytes) (tail : Bytes)
    → check_chunks chunks (none, new_validator) ≡ (none, tail)
    → length tail ≤ 3
check_chunks-le chunks tail h =
    tail_fits (join chunks) tail
      (rw h at (check_chunks-Progress [] chunks (none, new_validator) new_validator-Progress))
