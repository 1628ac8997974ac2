-- ===== src/Wire/Opcode.antt =====
-- crates/qup-core/src/types/opcode.rs: classes, directions and validation of opcodes.
pub mod Legal
use qup.Prelude.{
  Bool, true, false, not, ◌||◌, Option, none, some, Result, ok, err, ◌==◌, within, if◌then◌else◌,
}
use qup.Wire.Error.{
  WireDirection, client_to_node, node_to_client, Opcode, FrameError, reserved_opcode,
  invalid_direction,
}
use qup.Wire.Codes

pub data OpcodeClass : Type 0 where
  request ordinary_response error_response changed_notification : OpcodeClass
  compatibility_request compatibility_response reserved : OpcodeClass

unfoldable pub class : Opcode → OpcodeClass
class o =
    if within b'A' b'Z' o
    then request
    else if within b'a' b'z' o
    then ordinary_response
    else if o == b'@'
    then error_response
    else if o == b'!'
    then changed_notification
    else if o == b'?'
    then compatibility_request
    else if o == b':'
    then compatibility_response
    else reserved

abbrev pub is_request_class : OpcodeClass → Bool
is_request_class request = true
is_request_class _ = false

abbrev pub is_ordinary_response_class : OpcodeClass → Bool
is_ordinary_response_class ordinary_response = true
is_ordinary_response_class _ = false

abbrev is_reserved_class : OpcodeClass → Bool
is_reserved_class reserved = true
is_reserved_class _ = false

unfoldable pub is_reserved : Opcode → Bool
unfolding class
is_reserved o = is_reserved_class (class o)

unfoldable pub is_ok : Opcode → Bool
unfolding is_reserved
is_ok o = not (is_reserved o)

unfoldable pub is_defined : Opcode → Bool
is_defined o =
    o == b'P'
    || o == b'I'
    || o == b'C'
    || o == b'S'
    || o == b'G'
    || o == b'W'
    || o == b'N'
    || o == b'U'
    || o == b'?'
    || o == b'k'
    || o == b'i'
    || o == b'c'
    || o == b's'
    || o == b'g'
    || o == b'w'
    || o == b':'
    || o == b'@'
    || o == b'!'

unfoldable pub expected_ordinary_response : Opcode → Option Opcode
expected_ordinary_response o =
    if o == b'P' || o == b'N' || o == b'U'
    then some Codes.ok
    else if o == b'I'
    then some Codes.identified
    else if o == b'C'
    then some Codes.keytablen
    else if o == b'S'
    then some Codes.key
    else if o == b'G'
    then some Codes.value
    else if o == b'W'
    then some Codes.written
    else none

abbrev direction_of_class : OpcodeClass → Option WireDirection
direction_of_class request = some client_to_node
direction_of_class compatibility_request = some client_to_node
direction_of_class ordinary_response = some node_to_client
direction_of_class error_response = some node_to_client
direction_of_class changed_notification = some node_to_client
direction_of_class compatibility_response = some node_to_client
direction_of_class reserved = none

unfoldable pub required_direction : Opcode → Option WireDirection
unfolding class
required_direction o = direction_of_class (class o)

-- the last `match` of `validate`
check_direction : Opcode → Option WireDirection → WireDirection → Result (Unit {0}) FrameError
check_direction o (some client_to_node) client_to_node = ok tt
check_direction o (some client_to_node) node_to_client = err (invalid_direction o node_to_client)
check_direction o (some node_to_client) node_to_client = ok tt
check_direction o (some node_to_client) client_to_node = err (invalid_direction o client_to_node)
check_direction o none direction = err (reserved_opcode o)

unfoldable pub validate : Opcode → WireDirection → Result (Unit {0}) FrameError
unfolding is_reserved is_defined required_direction check_direction
validate o direction =
    if is_reserved o
    then err (reserved_opcode o)
    else if not (is_defined o)
    then err (FrameError.unknown_opcode o)
    else check_direction o (required_direction o) direction
