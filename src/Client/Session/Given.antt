-- ===== src/Client/Session/Given.antt =====
-- A message of a node, from its frame to the caller of the client (crates/qup/src/client.rs).
use qup.Prelude.{◌≡◌, refl, Bytes, Result, ok}
use qup.Wire.Error.{node_to_client}
use qup.Wire.Opcode.{validate}
use qup.Wire.Message.{decode_message}
use qup.Wire.Message.Types.{
  MessageRef, request, ordinary_response, compatibility_request, compatibility_response, error,
  changed,
}
use qup.Wire.Message.Encoding.{opcode_of, payload_of, IsWireMessage}
use qup.Wire.Message.Decoding.{decode-payload_of}
use qup.Client.Encode.{build_frame}
use qup.Client.Encode.Frames.{parse_frame-build_frame}
use qup.Client.Message.{Message, ClientError}
use qup.Client.Owned.{owned_ordinary_message, owned_message}
use qup.Client.Session.{accept_message, accept_view, accept_frame}
use qup.Client.Session.Receive.{request_opcode-validate}
use qup.Client.Owned.Same.{Same, same_caps, same_error, same_changed, owned_ordinary_message-Same}

-- The client's caller gets the message.
pub record Gives {E : Type 0} (message : MessageRef) (out : Result Message (ClientError E))
    : Type 0 where
  pub got : Message
  pub is : out ≡ ok got
  pub same : Same message got

owned_message-Gives :
    {E : Type 0} (message : MessageRef)
    → validate (opcode_of message) node_to_client ≡ ok tt
    → Gives {E = E} message (owned_message message)
unfolding owned_message validate
owned_message-Gives (request r) h = absurd (request_opcode-validate r h)
owned_message-Gives compatibility_request h = cc
owned_message-Gives (ordinary_response r) h = record {
  got = owned_ordinary_message r;
  is = refl;
  same = owned_ordinary_message-Same r;
}
owned_message-Gives (compatibility_response text) h = record {
  got = Message.caps text.raw;
  is = refl;
  same = same_caps text;
}
owned_message-Gives (error response) h = record {
  got = Message.error response.code;
  is = refl;
  same = same_error response;
}
owned_message-Gives (changed keyref) h = record {
  got = Message.changed keyref;
  is = refl;
  same = same_changed keyref;
}

-- The frame of a message within the wire limits, with an opcode that a node may send, is received
-- as that message: the client's caller gets a message of the same kind, with the same parts.
pub accept_frame-build_frame :
    {E : Type 0} (message : MessageRef) (frame : Bytes)
    → IsWireMessage message
    → validate (opcode_of message) node_to_client ≡ ok tt
    → build_frame (opcode_of message) (payload_of message) ≡ ok frame
    → Gives {E = E} message (accept_frame frame)
unfolding accept_frame accept_view accept_message decode_message
accept_frame-build_frame message frame carried legal built =
    rw
      (
        parse_frame-build_frame node_to_client (opcode_of message) (payload_of message) frame built
            legal,
        decode-payload_of message carried,
      )
      (owned_message-Gives message legal)
