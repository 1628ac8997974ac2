-- ===== src/Wire/Caps.antt =====
-- crates/qup-core/src/types/caps.rs: the capability string of a `CAPS` response.
use qup.Prelude.{
  ◌≡◌, arith, ℕ, ◌+◌, ◌-◌, Bool, true, false, not, ◌&&◌, Option, none, some, [], ◌∷◌, Bytes, Result,
  ok, err, ◌>>◌, get_elem?, set, replicate, ltb, ◌==◌, if◌then◌else◌,
}
use qup.Wire.Error.{Opcode, PayloadError, malformed_caps}
use qup.Wire.Opcode.{
  class, is_request_class, is_ordinary_response_class, expected_ordinary_response,
}

pub record CapsEntry : Type 0 where
  pub request : Opcode
  pub response : Opcode
  pub known : Bool

pub record CapsRef : Type 0 where
  pub raw : Bytes
  pub supports_changed : Bool

-- raw.is_ascii()
unfoldable pub is_ascii : Bytes → Bool
is_ascii [] = true
is_ascii (b ∷ bs) = ltb b 0x80 && is_ascii bs

-- bytes.last()
abbrev pub last : Bytes → Option ℕ
last [] = none
last (b ∷ []) = some b
last (b ∷ c ∷ bs) = last (c ∷ bs)

-- `Some(expected) = request.expected_ordinary_response() && expected != response`
unfoldable pub contradicts : Option Opcode → Opcode → Bool
contradicts none response = false
contradicts (some expected) response = not (expected == response)

-- The slot of `seen` at the request: another response there is refused, an empty one is filled.
fill : Bytes → ℕ → ℕ → Option ℕ → Result Bytes PayloadError
fill seen slot response none = err malformed_caps
fill seen slot response (some seen_response) =
    if not (seen_response == 0) && not (seen_response == response)
    then err malformed_caps
    else if seen_response == 0
    then ok (set seen slot response)
    else ok seen

-- One round of the loop on a pair: the new `seen`.
unfoldable pub check_pair : Opcode → Opcode → Bytes → Result Bytes PayloadError
unfolding fill contradicts
check_pair request response seen =
    if not (is_request_class (class request))
    then err malformed_caps
    else if not (is_ordinary_response_class (class response))
    then err malformed_caps
    else if contradicts (expected_ordinary_response request) response
    then err malformed_caps
    else if ltb request b'A'
    then err malformed_caps
    else fill seen (request - b'A') response (get_elem? seen (request - b'A'))

-- The loop, on the bytes from `index` on. No index overflows: a slice is shorter than `usize::MAX`.
unfoldable pub scan : Bytes → Bytes → Result (Unit {0}) PayloadError
scan [] seen = ok tt
scan (request_byte ∷ []) seen = if request_byte == b'!' then ok tt else err malformed_caps
scan (request_byte ∷ response_byte ∷ rest) seen =
    if request_byte == b'!'
    then err malformed_caps
    else elim (check_pair request_byte response_byte seen) [
      | ok seen' ↦ scan rest seen'
      | err e ↦ err e
    ]

abbrev is_bang : Option ℕ → Bool
is_bang none = false
is_bang (some b) = b == b'!'

-- CapsRef::parse
unfoldable pub parse : Bytes → Result CapsRef PayloadError
unfolding is_ascii scan
parse raw = if not (is_ascii raw) then err malformed_caps else (do
  scan raw (replicate 26 0)
  ok (record { raw = raw; supports_changed = is_bang (last raw) }))

pub parse_raw : (raw : Bytes) {caps : CapsRef} → parse raw ≡ ok caps → caps.raw ≡ raw
unfolding parse
parse_raw raw h = ground arith

pub record CapsIter : Type 0 where
  pub bytes : Bytes
  pub index : ℕ

-- CapsRef::iter
abbrev pub iter : CapsRef → CapsIter
iter caps = record { bytes = caps.raw; index = 0 }

abbrev is_some : Option Opcode → Bool
is_some none = false
is_some (some o) = true

next_response : CapsIter → Opcode → Option ℕ → Option CapsEntry × CapsIter
next_response it request none = (none, it)
next_response it request (some response) = (
  some (record {
    request = request;
    response = response;
    known = is_some (expected_ordinary_response request);
  }),
  record it { index = it.index + 1 + 1 },
)

next_request : CapsIter → Option ℕ → Option CapsEntry × CapsIter
next_request it none = (none, it)
next_request it (some request) =
    if request == b'!'
    then (none, it)
    else next_response it request (get_elem? it.bytes (it.index + 1))

-- CapsIter::next
unfoldable pub next : CapsIter → Option CapsEntry × CapsIter
unfolding next_request next_response
next it = next_request it (get_elem? it.bytes it.index)
