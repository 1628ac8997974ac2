-- ===== src/Embassy/Validator.antt =====
-- `Utf8StreamValidator`, `decode_wire_string` and `validate_wire_string` of
-- crates/qup-embassy/src/lib.rs.
pub mod Scan
pub mod Chunks
use qup.Prelude.{
  ℕ, ◌+◌, ◌≡◌, Option, none, some, [], ◌∷◌, ◌++◌, Bytes, Result, ok, err, map_err, drop, length,
  ltb, is_empty, if◌then◌else◌,
}
use qup.Prelude.Exec.{Exec}
use qup.Word.{contains}
use qup.Wire.Utf8.{Utf8Error, from_utf8}
use qup.Embassy.Error.{WireStringError, node_id_too_long, node_id_has_nul}
use qup.Wire.Error.{PayloadError, string_contains_nul, invalid_utf8}

unfoldable pub decode_wire_string : Bytes → Result Bytes PayloadError
decode_wire_string bytes =
    if contains bytes 0x00 then err string_contains_nul else map_err invalid_utf8 (from_utf8 bytes)

unfoldable pub validate_wire_string : Bytes → Result (Unit {0}) WireStringError
validate_wire_string value =
    if ltb 65535 (length value)
    then err node_id_too_long
    else if contains value 0x00
    then err node_id_has_nul
    else ok tt

-- The validator is its tail: the first `tail_len` bytes of its array.
abbrev pub Utf8StreamValidator : Type 0
Utf8StreamValidator = Bytes

-- Utf8StreamValidator::new
abbrev pub new_validator : Utf8StreamValidator
new_validator = []

-- The `Err` arm of the `match` in `feed`, on the joined buffer.
abbrev pub keep_leftover :
    Bytes → Utf8Error → Option ℕ → Exec Utf8StreamValidator PayloadError (Unit {0})
keep_leftover buffer error (some _) tail = (err (invalid_utf8 error), tail)
keep_leftover buffer error none tail = (ok tt, drop error.valid_up_to buffer)

abbrev pub feed_buffer :
    Bytes → Result Bytes Utf8Error → Exec Utf8StreamValidator PayloadError (Unit {0})
feed_buffer buffer (ok _) tail = (ok tt, [])
feed_buffer buffer (err error) tail = keep_leftover buffer error error.error_len tail

unfoldable pub feed : Bytes → Exec Utf8StreamValidator PayloadError (Unit {0})
feed chunk tail =
    let buffer = tail ++ chunk in
    if contains chunk 0x00
    then (err string_contains_nul, tail)
    else feed_buffer buffer (from_utf8 buffer) tail

-- Utf8StreamValidator::finish
abbrev pub finish_tail : Result Bytes Utf8Error → Result (Unit {0}) PayloadError
finish_tail (ok _) = ok tt
finish_tail (err error) = err (invalid_utf8 error)

unfoldable pub finish_validator : Utf8StreamValidator → Result (Unit {0}) PayloadError
finish_validator tail = if is_empty tail then ok tt else finish_tail (from_utf8 tail)

-- One round of the loop over an oversized string, once its chunk has been read: what has gone wrong
-- so far, and the validator.
abbrev pub Checking : Type 0
Checking = Option PayloadError × Utf8StreamValidator

abbrev pub noted : Result (Unit {0}) PayloadError × Utf8StreamValidator → Checking
noted (ok _, tail) = (none, tail)
noted (err error, tail) = (some error, tail)

unfoldable pub check_chunk : Bytes → Checking → Checking
unfolding feed
check_chunk chunk (some error, tail) = (some error, tail)
check_chunk chunk (none, tail) = noted (feed chunk tail)

-- `payload_error.or_else(|| validator.finish().err())`
unfoldable pub payload_error : Checking → Option PayloadError
unfolding finish_validator
payload_error (some error, tail) = some error
payload_error (none, tail) = elim (finish_validator tail) [ ok _ ↦ none | err error ↦ some error ]
