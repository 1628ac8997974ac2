-- ===== src/Client/Owned.antt =====
-- From borrowed messages to owned ones, and what each request makes of an answer
-- (crates/qup/src/client.rs).
pub mod Same
use qup.Prelude.{ℕ, Bytes, Result, ok, err}
use qup.Wire.Error.{Opcode}
use qup.Wire.Value.{ValueRef}
use qup.Wire.Message.Types.{
  MessageRef, OrdinaryResponseRef, request, ordinary_response, compatibility_request,
  compatibility_response, changed, error,
}
use qup.Client.Encode.{Value}
use qup.Client.Message.{
  Message, KeyInfo, ResponseName, ClientError, protocol, request_error, client_direction_message,
}

unfoldable pub owned_value : ValueRef → Value
owned_value (ValueRef.bool value) = Value.bool value
owned_value (ValueRef.i64 value) = Value.i64 value
owned_value (ValueRef.str value) = Value.str value

unfoldable pub owned_ordinary_message : OrdinaryResponseRef → Message
unfolding owned_value
owned_ordinary_message OrdinaryResponseRef.ok = Message.ok
owned_ordinary_message (OrdinaryResponseRef.identified nodeid) = Message.identified nodeid
owned_ordinary_message (OrdinaryResponseRef.keytab_len count) = Message.keytab_len count
owned_ordinary_message (OrdinaryResponseRef.key keyflags name) = Message.key keyflags name
owned_ordinary_message (OrdinaryResponseRef.value value) = Message.value (owned_value value)
owned_ordinary_message (OrdinaryResponseRef.written value) = Message.written (owned_value value)

module _ {E : Type 0} where
  unfoldable pub owned_message : MessageRef → Result Message (ClientError E)
  owned_message (ordinary_response ordinary) = ok (owned_ordinary_message ordinary)
  owned_message (compatibility_response caps) = ok (Message.caps caps.raw)
  owned_message (error response) = ok (Message.error response.code)
  owned_message (changed keyref) = ok (Message.changed keyref)
  owned_message (request _) = err (protocol client_direction_message)
  owned_message compatibility_request = err (protocol client_direction_message)

  unfoldable pub unexpected_message : Opcode → ResponseName → Message → ClientError E
  unexpected_message asked expected (Message.error code) = request_error asked code
  unexpected_message asked expected actual = ClientError.unexpected_message expected actual

  -- The `match` on the answer, of each asked.
  unfoldable pub as_ok : Opcode → Message → Result (Unit {0}) (ClientError E)
  unfolding unexpected_message
  as_ok asked Message.ok = ok tt
  as_ok asked actual = err (unexpected_message asked ResponseName.ok actual)

  unfoldable pub as_caps : Opcode → Message → Result Bytes (ClientError E)
  unfolding unexpected_message
  as_caps asked (Message.caps caps) = ok caps
  as_caps asked actual = err (unexpected_message asked ResponseName.caps actual)

  unfoldable pub as_identified : Opcode → Message → Result Bytes (ClientError E)
  unfolding unexpected_message
  as_identified asked (Message.identified node_id) = ok node_id
  as_identified asked actual = err (unexpected_message asked ResponseName.identified actual)

  unfoldable pub as_keytab_len : Opcode → Message → Result ℕ (ClientError E)
  unfolding unexpected_message
  as_keytab_len asked (Message.keytab_len count) = ok count
  as_keytab_len asked actual = err (unexpected_message asked ResponseName.keytab_len actual)

  unfoldable pub as_key : Opcode → ℕ → Message → Result KeyInfo (ClientError E)
  unfolding unexpected_message
  as_key asked keyref (Message.key keyflags name) =
      ok (record { keyref = keyref; keyflags = keyflags; name = name })
  as_key asked keyref actual = err (unexpected_message asked ResponseName.key actual)

  unfoldable pub as_value : Opcode → Message → Result Value (ClientError E)
  unfolding unexpected_message
  as_value asked (Message.value value) = ok value
  as_value asked actual = err (unexpected_message asked ResponseName.value actual)

  unfoldable pub as_written : Opcode → Message → Result Value (ClientError E)
  unfolding unexpected_message
  as_written asked (Message.written value) = ok value
  as_written asked actual = err (unexpected_message asked ResponseName.written actual)
