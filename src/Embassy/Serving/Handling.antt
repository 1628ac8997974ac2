-- ===== src/Embassy/Serving/Handling.antt =====
-- `handle_request`, on every kind of request.
use qup.Prelude.{◌≡◌, Bool, Option, none, some, [], ◌∷◌, Bytes, ok}
use qup.Wire.Codes
use qup.Wire.Error.{Opcode}
use qup.Wire.Opcode.{expected_ordinary_response}
use qup.Client.Session.{ByteStream}
use qup.Embassy.Keys.{caps}
use qup.Embassy.Incoming
use qup.Embassy.Incoming.{IncomingRequest}
use qup.Embassy.Serving.{
  ErasedKey, Serving, send_str16_response, send_key_response, send_void_key_response, on_stream,
  not_allowed, answer_key, answer_get, answer_write, answer_observe, send_ok, answer_unobserve,
  handle_request, error_not_allowed,
}
use qup.Embassy.Serving.Answers.{
  Answers, send_str16_response-Answers, send_key_response-Answers, stream_answer, frame_answer,
  error_answer, slot_answer, get_answer, write_answer, observe_answer, unobserve_answer,
}

-- The opcode of the request.
abbrev pub request_code : IncomingRequest → Opcode
request_code Incoming.ping = Codes.ping
request_code Incoming.identify = Codes.identify
request_code Incoming.get_caps = Codes.getcaps
request_code Incoming.get_keytab_len = Codes.getkeytablen
request_code (Incoming.get_key keyref) = Codes.getkey
request_code (Incoming.get keyref) = Codes.get
request_code (Incoming.write keyref value) = Codes.write
request_code (Incoming.observe keyref) = Codes.observe
request_code (Incoming.unobserve keyref) = Codes.unobserve

-- The ordinary response that the protocol expects, or CAPS for the compatibility request.
abbrev pub or_caps : Option Opcode → Opcode
or_caps none = Codes.caps
or_caps (some opcode) = opcode

abbrev pub answer_code : IncomingRequest → Opcode
answer_code incoming = or_caps (expected_ordinary_response (request_code incoming))

module _ {S E K : Type 0} (io_stream : ByteStream S E) (erased : ErasedKey K)
    (has_observable_keys : Bool) where
  -- A request that was handled was answered by exactly one frame: the response that the protocol
  -- expects of its opcode (CAPS for GETCAPS), or an ERROR.
  pub handle_request-Answers :
      (node_id : Bytes) (incoming : IncomingRequest) (before after : Serving S K)
      → handle_request io_stream erased has_observable_keys node_id incoming before ≡ (ok tt, after)
      → Answers io_stream erased has_observable_keys
          (answer_code incoming)
          before.stream
          after.stream
  unfolding handle_request expected_ordinary_response answer_key send_void_key_response
  handle_request-Answers node_id Incoming.ping before after h =
      frame_answer io_stream erased has_observable_keys Codes.ok before after [] h
  handle_request-Answers node_id Incoming.identify before after h =
      stream_answer io_stream erased has_observable_keys Codes.identified before after
        (send_str16_response io_stream erased has_observable_keys Codes.identified node_id)
        (λ s sent.
          send_str16_response-Answers io_stream erased has_observable_keys Codes.identified node_id
            before.stream s sent)
        h
  handle_request-Answers node_id Incoming.get_caps before after h =
      stream_answer io_stream erased has_observable_keys Codes.caps before after
        (send_str16_response io_stream erased has_observable_keys Codes.caps
          (caps has_observable_keys))
        (λ s sent.
          send_str16_response-Answers io_stream erased has_observable_keys Codes.caps
            (caps has_observable_keys) before.stream s sent)
        h
  handle_request-Answers node_id Incoming.get_keytab_len before after h =
      frame_answer io_stream erased has_observable_keys Codes.keytablen before after _ h
  handle_request-Answers node_id (Incoming.get_key keyref) before after h =
      slot_answer io_stream erased has_observable_keys Codes.key before after keyref
        (answer_key io_stream erased has_observable_keys)
        (on_stream io_stream erased has_observable_keys
          (send_void_key_response io_stream erased has_observable_keys))
        (λ index key done.
          stream_answer io_stream erased has_observable_keys Codes.key before after
            (send_key_response io_stream erased has_observable_keys key)
            (λ s sent.
              send_key_response-Answers io_stream erased has_observable_keys key before.stream s
                sent)
            done)
        (λ done.
          frame_answer io_stream erased has_observable_keys Codes.key before after
            (0x00 ∷ 0x00 ∷ 0x00 ∷ []) done)
        h
  handle_request-Answers node_id (Incoming.get keyref) before after h =
      slot_answer io_stream erased has_observable_keys Codes.value before after keyref
        (answer_get io_stream erased has_observable_keys)
        (not_allowed io_stream erased has_observable_keys)
        (λ index key done.
          get_answer io_stream erased has_observable_keys index key before after done)
        (λ done.
          error_answer io_stream erased has_observable_keys Codes.value before after
            error_not_allowed done)
        h
  handle_request-Answers node_id (Incoming.write keyref value) before after h =
      slot_answer io_stream erased has_observable_keys Codes.written before after keyref
        (answer_write io_stream erased has_observable_keys value)
        (not_allowed io_stream erased has_observable_keys)
        (λ index key done.
          write_answer io_stream erased has_observable_keys index key before after value done)
        (λ done.
          error_answer io_stream erased has_observable_keys Codes.written before after
            error_not_allowed done)
        h
  handle_request-Answers node_id (Incoming.observe keyref) before after h =
      slot_answer io_stream erased has_observable_keys Codes.ok before after keyref
        (answer_observe io_stream erased has_observable_keys)
        (not_allowed io_stream erased has_observable_keys)
        (λ index key done.
          observe_answer io_stream erased has_observable_keys index key before after done)
        (λ done.
          error_answer io_stream erased has_observable_keys Codes.ok before after error_not_allowed
            done)
        h
  handle_request-Answers node_id (Incoming.unobserve keyref) before after h =
      slot_answer io_stream erased has_observable_keys Codes.ok before after keyref
        (answer_unobserve io_stream erased has_observable_keys)
        (send_ok io_stream erased has_observable_keys)
        (λ index key done.
          unobserve_answer io_stream erased has_observable_keys index key before after done)
        (λ done. frame_answer io_stream erased has_observable_keys Codes.ok before after [] done) h
