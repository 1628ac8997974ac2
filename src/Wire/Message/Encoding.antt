-- ===== src/Wire/Message/Encoding.antt =====
-- The wire form of each message (PROTOCOL.md, "Requests" and "Responses"), and the round trip.
use qup.Prelude.{ℕ, ◌<◌, ◌^◌, ◌≡◌, [], ◌∷◌, ◌++◌, Bytes, ok}
use qup.Word.{IsByte, to_be_bytes}
use qup.Wire.Error.{Opcode}
use qup.Wire.Codes
use qup.Wire.Value.Encoding.{encode_value, IsWireValue}
use qup.Wire.Cursor.Reads.{bytes16}
use qup.Wire.Cursor.Inverse.{IsStr16}
use qup.Wire.Caps.{parse}
use qup.Wire.Message.Types.{
  RequestRef, OrdinaryResponseRef, MessageRef, request, ordinary_response, compatibility_request,
  compatibility_response, error, changed,
}

abbrev pub request_opcode : RequestRef → Opcode
request_opcode RequestRef.ping = Codes.ping
request_opcode RequestRef.identify = Codes.identify
request_opcode RequestRef.get_keytab_len = Codes.getkeytablen
request_opcode (RequestRef.get_key keyref) = Codes.getkey
request_opcode (RequestRef.get keyref) = Codes.get
request_opcode (RequestRef.write keyref value) = Codes.write
request_opcode (RequestRef.observe keyref) = Codes.observe
request_opcode (RequestRef.unobserve keyref) = Codes.unobserve

abbrev pub response_opcode : OrdinaryResponseRef → Opcode
response_opcode OrdinaryResponseRef.ok = Codes.ok
response_opcode (OrdinaryResponseRef.identified nodeid) = Codes.identified
response_opcode (OrdinaryResponseRef.keytab_len count) = Codes.keytablen
response_opcode (OrdinaryResponseRef.key keyflags name) = Codes.key
response_opcode (OrdinaryResponseRef.value value) = Codes.value
response_opcode (OrdinaryResponseRef.written value) = Codes.written

abbrev pub opcode_of : MessageRef → Opcode
opcode_of (request r) = request_opcode r
opcode_of (ordinary_response r) = response_opcode r
opcode_of compatibility_request = Codes.getcaps
opcode_of (compatibility_response caps) = Codes.caps
opcode_of (error e) = Codes.error
opcode_of (changed keyref) = Codes.changed

abbrev pub request_payload : RequestRef → Bytes
request_payload RequestRef.ping = []
request_payload RequestRef.identify = []
request_payload RequestRef.get_keytab_len = []
request_payload (RequestRef.get_key keyref) = to_be_bytes 2 keyref
request_payload (RequestRef.get keyref) = to_be_bytes 2 keyref
request_payload (RequestRef.write keyref value) = to_be_bytes 2 keyref ++ encode_value value
request_payload (RequestRef.observe keyref) = to_be_bytes 2 keyref
request_payload (RequestRef.unobserve keyref) = to_be_bytes 2 keyref

abbrev pub response_payload : OrdinaryResponseRef → Bytes
response_payload OrdinaryResponseRef.ok = []
response_payload (OrdinaryResponseRef.identified nodeid) = bytes16 nodeid
response_payload (OrdinaryResponseRef.keytab_len count) = to_be_bytes 2 count
response_payload (OrdinaryResponseRef.key keyflags name) = keyflags ∷ bytes16 name
response_payload (OrdinaryResponseRef.value value) = encode_value value
response_payload (OrdinaryResponseRef.written value) = encode_value value

abbrev pub payload_of : MessageRef → Bytes
payload_of (request r) = request_payload r
payload_of (ordinary_response r) = response_payload r
payload_of compatibility_request = []
payload_of (compatibility_response caps) = bytes16 caps.raw
payload_of (error e) = e.code ∷ []
payload_of (changed keyref) = to_be_bytes 2 keyref

abbrev pub IsU16 : ℕ → Type 0
IsU16 v = v < 2 ^ 16

abbrev pub IsWireRequest : RequestRef → Type 0
IsWireRequest RequestRef.ping = Unit {0}
IsWireRequest RequestRef.identify = Unit {0}
IsWireRequest RequestRef.get_keytab_len = Unit {0}
IsWireRequest (RequestRef.get_key keyref) = IsU16 keyref
IsWireRequest (RequestRef.get keyref) = IsU16 keyref
IsWireRequest (RequestRef.write keyref value) = IsU16 keyref × IsWireValue value
IsWireRequest (RequestRef.observe keyref) = IsU16 keyref
IsWireRequest (RequestRef.unobserve keyref) = IsU16 keyref

abbrev pub IsWireResponse : OrdinaryResponseRef → Type 0
IsWireResponse OrdinaryResponseRef.ok = Unit {0}
IsWireResponse (OrdinaryResponseRef.identified nodeid) = IsStr16 nodeid
IsWireResponse (OrdinaryResponseRef.keytab_len count) = IsU16 count
IsWireResponse (OrdinaryResponseRef.key keyflags name) = (keyflags < 8) × IsStr16 name
IsWireResponse (OrdinaryResponseRef.value value) = IsWireValue value
IsWireResponse (OrdinaryResponseRef.written value) = IsWireValue value

-- The messages that the wire can carry.
abbrev pub IsWireMessage : MessageRef → Type 0
IsWireMessage (request r) = IsWireRequest r
IsWireMessage (ordinary_response r) = IsWireResponse r
IsWireMessage compatibility_request = Unit {0}
IsWireMessage (compatibility_response caps) = IsStr16 caps.raw × (parse caps.raw ≡ ok caps)
IsWireMessage (error e) = IsByte e.code
IsWireMessage (changed keyref) = IsU16 keyref
