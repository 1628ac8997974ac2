-- ===== src/Client/Owned/Same.antt =====
-- A message of a node and the owned message of crates/qup/src/client.rs that stands for it.
use qup.Wire.Caps.{CapsRef}
use qup.Prelude.{ℕ, Bool, Bytes}
use qup.Word.{ℤ}
use qup.Wire.Value.{ValueRef}
use qup.Wire.Scalar.{KeyFlags}
use qup.Wire.Message.Types.{
  OrdinaryResponseRef, ErrorResponse, MessageRef, ordinary_response, compatibility_response, error,
  changed,
}
use qup.Client.Encode.{Value}
use qup.Client.Message.{Message}
use qup.Client.Owned.{owned_value, owned_ordinary_message}

-- The value of a message, with an owned text.
pub data SameValue : ValueRef → Value → Type 0 where
  same_bool : (value : Bool) → SameValue (ValueRef.bool value) (Value.bool value)
  same_i64 : (value : ℤ) → SameValue (ValueRef.i64 value) (Value.i64 value)
  same_str : (value : Bytes) → SameValue (ValueRef.str value) (Value.str value)

-- A message of a node, and what the client's caller gets of it: the same kind, with the same parts.
pub data Same : MessageRef → Message → Type 0 where
  same_ok : Same (ordinary_response OrdinaryResponseRef.ok) Message.ok
  same_caps : (text : CapsRef) → Same (compatibility_response text) (Message.caps text.raw)
  same_identified :
      (name : Bytes)
      → Same (ordinary_response (OrdinaryResponseRef.identified name)) (Message.identified name)
  same_keytab_len :
      (count : ℕ)
      → Same (ordinary_response (OrdinaryResponseRef.keytab_len count)) (Message.keytab_len count)
  same_key :
      (keyflags : KeyFlags) (name : Bytes)
      → Same (ordinary_response (OrdinaryResponseRef.key keyflags name)) (Message.key keyflags name)
  same_value :
      (sent : ValueRef) (got : Value)
      → SameValue sent got
      → Same (ordinary_response (OrdinaryResponseRef.value sent)) (Message.value got)
  same_written :
      (sent : ValueRef) (got : Value)
      → SameValue sent got
      → Same (ordinary_response (OrdinaryResponseRef.written sent)) (Message.written got)
  same_error : (response : ErrorResponse) → Same (error response) (Message.error response.code)
  same_changed : (keyref : ℕ) → Same (changed keyref) (Message.changed keyref)

owned_value-SameValue : (value : ValueRef) → SameValue value (owned_value value)
unfolding owned_value
owned_value-SameValue (ValueRef.bool value) = same_bool value
owned_value-SameValue (ValueRef.i64 value) = same_i64 value
owned_value-SameValue (ValueRef.str value) = same_str value

pub owned_ordinary_message-Same :
    (m : OrdinaryResponseRef) → Same (ordinary_response m) (owned_ordinary_message m)
unfolding owned_ordinary_message
owned_ordinary_message-Same OrdinaryResponseRef.ok = same_ok
owned_ordinary_message-Same (OrdinaryResponseRef.identified name) = same_identified name
owned_ordinary_message-Same (OrdinaryResponseRef.keytab_len count) = same_keytab_len count
owned_ordinary_message-Same (OrdinaryResponseRef.key keyflags name) = same_key keyflags name
owned_ordinary_message-Same (OrdinaryResponseRef.value value) =
    same_value value _ (owned_value-SameValue value)
owned_ordinary_message-Same (OrdinaryResponseRef.written value) =
    same_written value _ (owned_value-SameValue value)
