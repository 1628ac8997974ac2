-- ===== src/Wire/Cursor/Inverse.antt =====
-- What a successful read says of the payload: the bytes that it took are the encoding of its value.
use qup.Prelude.{
  ℕ, zero, suc, ◌<◌, ◌^◌, ◌≤◌, ◌≡◌, refl, sym, ap, ◌∙◌, false, [], ◌∷◌, ◌++◌, append_assoc, Bytes,
  ok, length, take, drop, take-append-drop, length-take, arith, if◌then◌else◌, map_err,
}
use qup.Prelude.Exec.{lift, raise}
pub use qup.Prelude.Exec.{continue-ok}
use qup.Word.{
  AllBytes, ℤ, IsI64, to_be_bytes, from_be_bytes, i64_to_be_bytes, i64_from_be_bytes, contains,
}
use qup.Word.BigEndian.{AllBytes-append, to_be_bytes-from_be_bytes, from_be_bytes-lt}
use qup.Word.Signed.{i64_to_be_bytes-i64_from_be_bytes, i64_from_be_bytes-IsI64}
use qup.Wire.Utf8.{IsUtf8, from_utf8, from_utf8_same}
use qup.Wire.Error.{string_contains_nul, invalid_utf8}
use qup.Wire.Cursor.{
  Read, first, read_bytes, take_array, read_u8, read_u16, read_i64, read_bytes16, read_str16,
}
use qup.Wire.Cursor.Reads.{bytes16}

AllBytes-take : (n : ℕ) (s : Bytes) → AllBytes s → AllBytes (take n s)
AllBytes-take zero s h = tt
AllBytes-take (suc n) [] h = tt
AllBytes-take (suc n) (b ∷ s) h = (h.0, AllBytes-take n s h.1)

AllBytes-drop : (n : ℕ) (s : Bytes) → AllBytes s → AllBytes (drop n s)
AllBytes-drop zero s h = h
AllBytes-drop (suc n) [] h = tt
AllBytes-drop (suc n) (b ∷ s) h = AllBytes-drop n s h.1

-- `s` is the bytes `bytes`, then `rest`.
pub record Splits (s bytes rest : Bytes) : Type 0 where
  pub joined : s ≡ bytes ++ rest
  pub bytes_ok : AllBytes bytes
  pub rest_ok : AllBytes rest

Splits-take :
    (n : ℕ) (s : Bytes) {bytes rest : Bytes}
    → AllBytes s
    → (bytes ≡ take n s) × (rest ≡ drop n s) × (n ≤ length s)
    → Splits s bytes rest × (length bytes ≡ n)
Splits-take n s ok_s (b, r, le) =
    rw (b, r)
      (
        record {
          joined = sym (take-append-drop n s);
          bytes_ok = AllBytes-take n s ok_s;
          rest_ok = AllBytes-drop n s ok_s;
        },
        length-take n s le,
      )

pub Splits-take_array :
    (n : ℕ) (s : Bytes) {bytes rest : Bytes}
    → AllBytes s
    → take_array n s ≡ (ok bytes, rest)
    → Splits s bytes rest × (length bytes ≡ n)
unfolding take_array
Splits-take_array n s ok_s h = Splits-take n s ok_s (ground arith)

pub Splits-read_bytes :
    (n : ℕ) (s : Bytes) {bytes rest : Bytes}
    → AllBytes s
    → read_bytes n s ≡ (ok bytes, rest)
    → Splits s bytes rest × (length bytes ≡ n)
unfolding read_bytes
Splits-read_bytes n s ok_s h = Splits-take n s ok_s (ground arith)

Splits-word :
    (n : ℕ) (s bytes rest : Bytes)
    → Splits s bytes rest × (length bytes ≡ n)
    → Splits s (to_be_bytes n (from_be_bytes bytes)) rest × (from_be_bytes bytes < 256 ^ n)
Splits-word n s bytes rest (split, e) =
    let same : to_be_bytes n (from_be_bytes bytes) ≡ bytes =
      ap (λ k. to_be_bytes k (from_be_bytes bytes)) (sym e)
      ∙ to_be_bytes-from_be_bytes bytes split.bytes_ok in
    (rw same split, rw e at (from_be_bytes-lt bytes split.bytes_ok))

pub Splits-read_u16 :
    (s : Bytes) {v : ℕ} {rest : Bytes}
    → AllBytes s
    → read_u16 s ≡ (ok v, rest)
    → Splits s (to_be_bytes 2 v) rest × (v < 2 ^ 16)
unfolding read_u16
Splits-read_u16 s {v} {rest} ok_s h =
    let (bytes, t, taken, done) =
      continue-ok (take_array 2 s) (λ bs. λ r. (ok (from_be_bytes bs), r)) h in
    let v_is : from_be_bytes bytes ≡ v = cc in
    let t_is : t ≡ rest = cc in
    rw (← v_is, ← t_is) (Splits-word 2 s bytes t (Splits-take_array 2 s ok_s taken))

pub Splits-read_i64 :
    (s : Bytes) {v : ℤ} {rest : Bytes}
    → AllBytes s
    → read_i64 s ≡ (ok v, rest)
    → Splits s (i64_to_be_bytes v) rest × IsI64 v
unfolding read_i64
Splits-read_i64 s {v} {rest} ok_s h =
    let (bytes, t, taken, done) =
      continue-ok (take_array 8 s) (λ bs. λ r. (ok (i64_from_be_bytes bs), r)) h in
    let (split, e) = Splits-take_array 8 s ok_s taken in
    let v_is : i64_from_be_bytes bytes ≡ v = cc in
    let t_is : t ≡ rest = cc in
    rw (← v_is, ← t_is)
      (
        rw (i64_to_be_bytes-i64_from_be_bytes bytes split.bytes_ok e) split,
        i64_from_be_bytes-IsI64 bytes split.bytes_ok e,
      )

first_one : (bytes : Bytes) → length bytes ≡ 1 → bytes ≡ first bytes ∷ []
first_one [] e = absurd (omega arith)
first_one (b ∷ []) e = refl
first_one (b ∷ c ∷ bs) e = absurd (omega arith)

pub Splits-read_u8 :
    (s : Bytes) {b : ℕ} {rest : Bytes}
    → AllBytes s
    → read_u8 s ≡ (ok b, rest)
    → Splits s (b ∷ []) rest
unfolding read_u8
Splits-read_u8 s {b} {rest} ok_s h =
    let (bytes, t, taken, done) = continue-ok (take_array 1 s) (λ bs. λ r. (ok (first bs), r)) h in
    let (split, e) = Splits-take_array 1 s ok_s taken in
    let b_is : first bytes ≡ b = cc in
    let t_is : t ≡ rest = cc in rw (← b_is, ← t_is) (rw (first_one bytes e) at split)

pub Splits-concat :
    (s xs ys rest middle : Bytes)
    → Splits s xs middle
    → Splits middle ys rest
    → Splits s (xs ++ ys) rest
Splits-concat s xs ys rest middle p q = record {
  joined = p.joined ∙ rw (q.joined, append_assoc);
  bytes_ok = AllBytes-append xs ys p.bytes_ok q.bytes_ok;
  rest_ok = q.rest_ok;
}

pub Splits-read_bytes16 :
    (s : Bytes) {bytes rest : Bytes}
    → AllBytes s
    → read_bytes16 s ≡ (ok bytes, rest)
    → Splits s (bytes16 bytes) rest × (length bytes < 2 ^ 16)
unfolding read_bytes16
Splits-read_bytes16 s {bytes} {rest} ok_s h =
    let (len, t, got, done) = continue-ok (read_u16 s) read_bytes h in
    let (split, lt) = Splits-read_u16 s ok_s got in
    let (body, e) = Splits-read_bytes len t split.rest_ok done in
    rw e (Splits-concat s (to_be_bytes 2 len) bytes rest t split body, lt)

-- A string that was read is on the wire as a `str16`, without NUL, and is UTF-8.
pub record IsStr16 (bytes : Bytes) : Type 0 where
  pub fits : length bytes < 2 ^ 16
  pub no_nul : contains bytes 0x00 ≡ false
  pub utf8 : IsUtf8 bytes

abbrev check_str : Bytes → Read Bytes
check_str bytes =
    if contains bytes 0x00
    then raise string_contains_nul
    else lift (map_err invalid_utf8 (from_utf8 bytes))

check_str-ok :
    (bytes t : Bytes) {str rest : Bytes}
    → check_str bytes t ≡ (ok str, rest)
    → (contains bytes 0x00 ≡ false) × (from_utf8 bytes ≡ ok str) × (t ≡ rest)
check_str-ok bytes t h = ground arith

pub Splits-read_str16 :
    (s : Bytes) {bytes rest : Bytes}
    → AllBytes s
    → read_str16 s ≡ (ok bytes, rest)
    → Splits s (bytes16 bytes) rest × IsStr16 bytes
unfolding read_str16
Splits-read_str16 s {bytes} {rest} ok_s h =
    let (got, t, read, done) = continue-ok (read_bytes16 s) check_str h in
    let (split, lt) = Splits-read_bytes16 s ok_s read in
    let (no_nul, utf8, t_is) = check_str-ok got t done in
    let same : bytes ≡ got = from_utf8_same got utf8 in
    rw (same, ← t_is) (split, record { fits = lt; no_nul = no_nul; utf8 = utf8 ∙ ap ok same })
