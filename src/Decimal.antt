-- ===== src/Decimal.antt =====
-- What crates/qup-test-cli/src/main.rs and crates/qup-test-tui use of the text functions of Rust's
-- standard library: `parse::<i64>()`, `parse::<u16>()`, `to_string` of an integer, `trim`, `pop`, the
-- UTF-8 bytes. A text
-- is the list of its characters' code points.
pub mod RoundTrip
pub mod Numeric
use qup.Prelude.{
  ℕ, zero, suc, ◌+◌, ◌-◌, ◌*◌, ◌/◌, ◌%◌, ◌^◌, ◌&&◌, ◌||◌, ◌==◌, Bool, Option, none, some, [], ◌∷◌,
  ◌++◌, List, Bytes, Result, ok, err, map_ok, ◌>>=◌, is_empty, ltb, within, if◌then◌else◌,
}
use qup.Word.{ℤ, pos, negsuc}

abbrev pub Text : Type 0
Text = List ℕ

-- `std::num::IntErrorKind`, for what these parsers report.
pub data ParseIntError : Type 0 where
  empty invalid_digit pos_overflow neg_overflow : ParseIntError

unfoldable pub to_digit : ℕ → Option ℕ
to_digit c = if within b'0' b'9' c then some (c - b'0') else none

-- A round of the parser, on a number whose magnitude may be `limit` at most.
unfoldable pub push_digit : ℕ → ParseIntError → ℕ → ℕ → Result ℕ ParseIntError
unfolding to_digit
push_digit limit overflow total c = elim (to_digit c) [
  | none ↦ err invalid_digit
  | some d ↦ if ltb limit (total * 10 + d) then err overflow else ok (total * 10 + d)
]

unfoldable pub magnitude : ℕ → ParseIntError → ℕ → Text → Result ℕ ParseIntError
unfolding push_digit
magnitude limit overflow total [] = ok total
magnitude limit overflow total (c ∷ cs) =
    push_digit limit overflow total c >>= λ next. magnitude limit overflow next cs

abbrev pub negated : ℕ → ℤ
negated zero = pos 0
negated (suc n) = negsuc n

abbrev pub i64_digits : ℕ → Text → Result ℤ ParseIntError
i64_digits c cs =
    if c == b'-'
    then map_ok negated (magnitude (2 ^ 63) neg_overflow 0 cs)
    else if c == b'+'
    then map_ok pos (magnitude (2 ^ 63 - 1) pos_overflow 0 cs)
    else map_ok pos (magnitude (2 ^ 63 - 1) pos_overflow 0 (c ∷ cs))

-- `text.parse::<i64>()`
unfoldable pub parse_i64 : Text → Result ℤ ParseIntError
unfolding magnitude
parse_i64 [] = err empty
parse_i64 (c ∷ cs) =
    if ((c == b'-') || (c == b'+')) && is_empty cs then err invalid_digit else i64_digits c cs

abbrev pub u16_digits : ℕ → Text → Result ℕ ParseIntError
u16_digits c cs = magnitude (2 ^ 16 - 1) pos_overflow 0 (if c == b'+' then cs else c ∷ cs)

-- `text.parse::<u16>()`: a minus sign is no digit.
unfoldable pub parse_u16 : Text → Result ℕ ParseIntError
unfolding magnitude
parse_u16 [] = err empty
parse_u16 (c ∷ cs) =
    if ((c == b'-') || (c == b'+')) && is_empty cs then err invalid_digit else u16_digits c cs

-- The decimal digits of a number below `10 ^ suc more`.
unfoldable pub digits : ℕ → ℕ → Text
digits zero n = (b'0' + n) ∷ []
digits (suc more) n =
    let rest = digits more (n / 10) in
    if ltb n 10 then (b'0' + n) ∷ [] else rest ++ (b'0' + n % 10) ∷ []

-- `to_string()` of an `i64`: 19 digits are enough for every magnitude up to 2^63.
unfoldable pub show_i64 : ℤ → Text
unfolding digits
show_i64 (pos n) = digits 18 n
show_i64 (negsuc n) = b'-' ∷ digits 18 (suc n)

-- `char::is_whitespace`
unfoldable pub is_whitespace : ℕ → Bool
is_whitespace c =
    within 0x09 0x0d c
    || (c == 0x20)
    || (c == 0x85)
    || (c == 0xa0)
    || (c == 0x1680)
    || within 0x2000 0x200a c
    || within 0x2028 0x2029 c
    || (c == 0x202f)
    || (c == 0x205f)
    || (c == 0x3000)

unfoldable pub trim_start : Text → Text
unfolding is_whitespace
trim_start [] = []
trim_start (c ∷ cs) = let rest = trim_start cs in if is_whitespace c then rest else c ∷ cs

unfoldable pub trim_end : Text → Text
unfolding is_whitespace
trim_end [] = []
trim_end (c ∷ cs) =
    let rest = trim_end cs in if is_whitespace c && is_empty rest then [] else c ∷ rest

-- `text.trim()`
unfoldable pub trim : Text → Text
unfolding trim_start trim_end
trim text = trim_end (trim_start text)

-- `text.pop()`
unfoldable pub pop : Text → Text
pop [] = []
pop (c ∷ []) = []
pop (c ∷ d ∷ cs) = c ∷ pop (d ∷ cs)

-- `char::encode_utf8`
unfoldable pub encode_utf8 : ℕ → Bytes
encode_utf8 c =
    if ltb c 0x80
    then c ∷ []
    else if ltb c 0x800
    then (0xc0 + c / 64) ∷ (0x80 + c % 64) ∷ []
    else if ltb c 0x10000
    then (0xe0 + c / 4096) ∷ (0x80 + c / 64 % 64) ∷ (0x80 + c % 64) ∷ []
    else (0xf0 + c / 262144) ∷ (0x80 + c / 4096 % 64) ∷ (0x80 + c / 64 % 64) ∷ (0x80 + c % 64) ∷ []

-- The bytes of a `String`.
unfoldable pub utf8_bytes : Text → Bytes
unfolding encode_utf8
utf8_bytes [] = []
utf8_bytes (c ∷ cs) = encode_utf8 c ++ utf8_bytes cs
