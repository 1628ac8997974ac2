-- ===== src/Node/Frames/Delivery.antt =====
-- The frames of the test node carry messages that a client receives.
use qup.Prelude.{
  ℕ, zero, suc, ◌+◌, ◌^◌, ◌<◌, ◌≡◌, refl, ap, ◌∙◌, [], ◌∷◌, ◌++◌, Bytes, Result, ok, err, length,
  length-append, ltb, Bool, true, false, not, ◌&&◌, List, lt→ltb, arith, some, get_elem?,
}
use qup.Word.{IsByte, to_be_bytes, contains}
use qup.Word.BigEndian.{length-to_be_bytes}
use qup.Word.Signed.{length-i64_to_be_bytes}
use qup.Wire.Codes
use qup.Wire.Error.{node_to_client}
use qup.Wire.Caps.{parse, check_pair}
use qup.Wire.Opcode.{validate, class, expected_ordinary_response}
use qup.Wire.Utf8.{Utf8Error, IsUtf8, from_utf8, from_utf8_same}
use qup.Wire.Cursor.Reads.{bytes16}
use qup.Wire.Checksum.{compute_checksum}
use qup.Wire.Value.{ValueRef, kind_as_byte, str_tag}
use qup.Wire.Value.Encoding.{encode_value, IsWireValue}
use qup.Wire.Cursor.Inverse.{IsStr16}
use qup.Wire.Message.Types.{
  MessageRef, OrdinaryResponseRef, ordinary_response, compatibility_response, error, changed,
}
use qup.Wire.Message.Encoding.{opcode_of, payload_of, IsWireMessage}
use qup.Client.Encode
use qup.Node.Keys.{KeySpec, key_specs, key_spec, caps_text, node_id, key_count}
use qup.Node.Frames.{
  WireValue, Panic, build_frame, push_str16, push_value, encode_ok, encode_identified,
  encode_keytab_len, encode_key, encode_value_response, encode_error, encode_caps, encode_changed,
}
use qup.Node.State.Valid.{IsSendable}

-- A frame is the wire form of a message within the wire limits, which a node may send.
pub record Deliverable (frame : Bytes) : Type 0 where
  pub message : MessageRef
  pub carried : IsWireMessage message
  pub legal : validate (opcode_of message) node_to_client ≡ ok tt
  pub built : Encode.build_frame (opcode_of message) (payload_of message) ≡ ok frame

-- The value as a client decodes it.
abbrev pub borrowed : WireValue → ValueRef
borrowed (WireValue.i64 value) = ValueRef.i64 value
borrowed (WireValue.str value) = ValueRef.str value

-- An encoder does not panic, and gives such a frame.
abbrev pub Delivers : Result Bytes Panic → Type 0
Delivers r = (frame : Bytes) × (r ≡ ok frame) × Deliverable frame

build_frame-Delivers :
    (message : MessageRef)
    → IsWireMessage message
    → validate (opcode_of message) node_to_client ≡ ok tt
    → length (payload_of message) < 2 ^ 16
    → Delivers (build_frame (opcode_of message) (payload_of message))
unfolding build_frame Encode.build_frame
build_frame-Delivers message carried legal lt =
    let short = lt→ltb _ _ lt in
    (
      opcode_of message
          ∷ (to_be_bytes 2 (length (payload_of message))
              ++ (payload_of message
                  ++ compute_checksum (opcode_of message) (payload_of message) ∷ [])),
      rw short refl,
      record { message = message; carried = carried; legal = legal; built = rw short refl },
    )

pub encode_ok-Delivers : Delivers encode_ok
unfolding encode_ok validate
encode_ok-Delivers =
    build_frame-Delivers (ordinary_response OrdinaryResponseRef.ok) tt refl (omega arith)

pub encode_keytab_len-Delivers : Delivers encode_keytab_len
unfolding encode_keytab_len validate to_be_bytes
encode_keytab_len-Delivers =
    build_frame-Delivers (ordinary_response (OrdinaryResponseRef.keytab_len key_count))
      (omega arith) refl (omega arith)

pub encode_error-Delivers : (code : ℕ) → IsByte code → Delivers (encode_error code)
unfolding encode_error validate
encode_error-Delivers code h =
    build_frame-Delivers (error (record { code = code })) h refl (omega arith)

pub encode_changed-Delivers : (keyref : ℕ) → keyref < 2 ^ 16 → Delivers (encode_changed keyref)
unfolding encode_changed validate to_be_bytes
encode_changed-Delivers keyref h = build_frame-Delivers (changed keyref) h refl (omega arith)

node_id-IsStr16 : IsStr16 node_id
unfolding contains from_utf8
node_id-IsStr16 = record { fits = omega arith; no_nul = refl; utf8 = refl }

pub encode_identified-Delivers : Delivers encode_identified
unfolding encode_identified push_str16 validate to_be_bytes
encode_identified-Delivers =
    build_frame-Delivers (ordinary_response (OrdinaryResponseRef.identified node_id))
      node_id-IsStr16 refl (omega arith)

caps_text-IsStr16 : IsStr16 caps_text
unfolding contains from_utf8
caps_text-IsStr16 = record { fits = omega arith; no_nul = refl; utf8 = refl }

caps_text-parse : parse caps_text ≡ ok (record { raw = caps_text; supports_changed = true })
unfolding parse check_pair class expected_ordinary_response
caps_text-parse = refl

pub encode_caps-Delivers : Delivers encode_caps
unfolding encode_caps push_str16 validate to_be_bytes
encode_caps-Delivers =
    build_frame-Delivers
      (compatibility_response (record { raw = caps_text; supports_changed = true }))
      (caps_text-IsStr16, caps_text-parse) refl (omega arith)

-- The names and the flags of the key table can be sent.
is_ok : Result Bytes Utf8Error → Bool
is_ok (ok s) = true
is_ok (err e) = false

is_sendable_spec : KeySpec → Bool
unfolding is_ok
is_sendable_spec spec =
    ltb spec.flags 8
    && (ltb (length spec.name) 100
        && (not (contains spec.name 0x00) && is_ok (from_utf8 spec.name)))

all_specs : List KeySpec → Bool
unfolding is_sendable_spec
all_specs [] = true
all_specs (spec ∷ specs) = is_sendable_spec spec && all_specs specs

all_specs-get :
    (specs : List KeySpec) (i : ℕ) (spec : KeySpec)
    → all_specs specs ≡ true
    → get_elem? specs i ≡ some spec
    → is_sendable_spec spec ≡ true
unfolding all_specs
all_specs-get [] i spec h e = cc
all_specs-get (x ∷ xs) zero spec h e =
    let same : x ≡ spec = ground arith in rw⁻¹ same (ground arith)
all_specs-get (x ∷ xs) (suc i) spec h e = all_specs-get xs i spec (ground arith) e

specs_table : all_specs key_specs ≡ true
unfolding all_specs contains from_utf8
specs_table = refl

is_ok-IsUtf8 :
    (name : Bytes) (r : Result Bytes Utf8Error) → from_utf8 name ≡ r → is_ok r ≡ true → IsUtf8 name
unfolding is_ok
is_ok-IsUtf8 name (ok s) e h = e ∙ ap ok (from_utf8_same name e)
is_ok-IsUtf8 name (err x) e h = cc

is_sendable_spec-IsStr16 :
    (spec : KeySpec)
    → is_sendable_spec spec ≡ true
    → (spec.flags < 8) × (length spec.name < 100) × IsStr16 spec.name
unfolding is_sendable_spec
is_sendable_spec-IsStr16 spec h =
    let short : length spec.name < 100 = ground arith in
    (
      ground arith,
      short,
      record {
        fits = omega arith;
        no_nul = ground arith;
        utf8 = is_ok-IsUtf8 spec.name (from_utf8 spec.name) refl (ground arith);
      },
    )

length-bytes16 : (bytes : Bytes) → length (bytes16 bytes) ≡ 2 + length bytes
length-bytes16 bytes =
    omega (
      arith,
      length-append (to_be_bytes 2 (length bytes)) bytes,
      length-to_be_bytes 2 (length bytes),
    )

push_str16-bytes16 :
    (b : ℕ) (value : Bytes)
    → length value < 2 ^ 16
    → push_str16 (b ∷ []) value ≡ ok (b ∷ bytes16 value)
unfolding push_str16
push_str16-bytes16 b value lt = rw (lt→ltb _ _ lt) refl

pub encode_key-Delivers :
    (keyref : ℕ) (spec : KeySpec) → key_spec keyref ≡ some spec → Delivers (encode_key spec)
unfolding encode_key key_spec validate
encode_key-Delivers keyref spec h =
    let (flags, short, str16) =
      is_sendable_spec-IsStr16 spec (all_specs-get key_specs keyref spec specs_table h) in
    rw (push_str16-bytes16 spec.flags spec.name (omega arith)) (
      build_frame-Delivers (ordinary_response (OrdinaryResponseRef.key spec.flags spec.name))
        (flags, str16) refl (omega (arith, length-bytes16 spec.name)))

push_value-encode_value :
    (value : WireValue)
    → IsSendable value
    → let v = borrowed value in
      (push_value [] value ≡ ok (encode_value v))
      × IsWireValue v
      × (length (encode_value v) < 2 ^ 16)
unfolding push_value kind_as_byte
push_value-encode_value (WireValue.i64 z) h = (refl, h, omega (arith, length-i64_to_be_bytes z))
push_value-encode_value (WireValue.str s) h = (
  push_str16-bytes16 str_tag s (omega (arith, h.short)),
  record { fits = omega (arith, h.short); no_nul = h.no_nul; utf8 = h.utf8 },
  omega (arith, length-bytes16 s, h.short),
)

pub encode_value_response-Delivers :
    (value : WireValue)
    → IsSendable value
    → Delivers (encode_value_response Codes.value value)
      × Delivers (encode_value_response Codes.written value)
unfolding encode_value_response validate
encode_value_response-Delivers value h =
    let (pushed, wire, short) = push_value-encode_value value h in
    (
      rw pushed (
          build_frame-Delivers (ordinary_response (OrdinaryResponseRef.value (borrowed value))) wire
            refl short),
      rw pushed (
          build_frame-Delivers (ordinary_response (OrdinaryResponseRef.written (borrowed value)))
            wire refl short),
    )
