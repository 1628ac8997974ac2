-- ===== src/Monitor/Text.antt =====
-- The texts of the table in crates/qup-test-tui/src/ui.rs and crates/qup-test-tui/src/network.rs. An
-- `Instant` is the nanoseconds of the clock. `escape_debug` is that of the standard library.
use qup.Prelude.{
  ℕ, ◌-◌, ◌/◌, ◌*◌, ◌+◌, ◌^◌, ◌≤◌, ◌<◌, ◌≡◌, Bool, true, false, Option, none, some, [], ◌∷◌, Bytes,
  ltb, if◌then◌else◌, arith,
}
use qup.Wire.Scalar.{KeyFlags, is_readable, is_writable, is_observable}
use qup.Client.Encode.{Value}
use qup.Decimal.{Text, show_i64}

unfoldable pub format_flags : KeyFlags → Text
format_flags flags =
    (if is_readable flags then b'r' else b'-')
    ∷ (if is_writable flags then b'w' else b'-')
    ∷ (if is_observable flags then b'o' else b'-')
    ∷ []

-- The texts "never" and a number with its unit.
pub data LastRead : Type 0 where
  never : LastRead
  seconds minutes hours days : ℕ → LastRead

-- `as_secs()` of the time between
abbrev pub elapsed_secs : ℕ → ℕ → ℕ
elapsed_secs last_read now = (now - last_read) / 10 ^ 9

unfoldable pub format_last_read : Option ℕ → ℕ → LastRead
format_last_read none now = never
format_last_read (some last_read) now =
    let elapsed = elapsed_secs last_read now in
    let whole_minutes = elapsed / 60 in
    let whole_hours = whole_minutes / 60 in
    if ltb elapsed 60
    then seconds elapsed
    else if ltb whole_minutes 60
    then minutes whole_minutes
    else if ltb whole_hours 24
    then hours whole_hours
    else days (whole_hours / 24)

abbrev bool_text : Bool → Text
bool_text true = b't' ∷ b'r' ∷ b'u' ∷ b'e' ∷ []
bool_text false = b'f' ∷ b'a' ∷ b'l' ∷ b's' ∷ b'e' ∷ []

unfoldable pub format_value : (Bytes → Text) → Value → Text
unfolding show_i64
format_value escape_debug (Value.bool value) = bool_text value
format_value escape_debug (Value.i64 value) = show_i64 value
format_value escape_debug (Value.str value) = escape_debug value

-- The seconds of a unit.
abbrev pub Spans : LastRead → ℕ → Type 0
Spans never elapsed = ⊥
Spans (seconds n) elapsed = (n ≡ elapsed) × (elapsed < 60)
Spans (minutes n) elapsed = (n * 60 ≤ elapsed) × (elapsed < n * 60 + 60) × (1 ≤ n) × (n < 60)
Spans (hours n) elapsed = (n * 3600 ≤ elapsed) × (elapsed < n * 3600 + 3600) × (1 ≤ n) × (n < 24)
Spans (days n) elapsed = (n * 86400 ≤ elapsed) × (elapsed < n * 86400 + 86400) × (1 ≤ n)

-- The age of a value is shown in the largest unit of which a whole one has passed, rounded down.
pub format_last_read-Spans :
    (last_read now : ℕ) → Spans (format_last_read (some last_read) now) (elapsed_secs last_read now)
unfolding format_last_read
format_last_read-Spans last_read now = spans (elapsed_secs last_read now)
  where
    spans :
        (elapsed : ℕ)
        → Spans
            (if ltb elapsed 60
              then seconds elapsed
              else if ltb (elapsed / 60) 60
              then minutes (elapsed / 60)
              else if ltb (elapsed / 60 / 60) 24
              then hours (elapsed / 60 / 60)
              else days (elapsed / 60 / 60 / 24))
            elapsed
    spans elapsed = ground arith
