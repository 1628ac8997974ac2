-- ===== src/Embassy/Serving.antt =====
-- The request handler and the notifications of `Server` in crates/qup-embassy/src/lib.rs. The buffer
-- `response_payload` is written before it is read, and is left out; `run!` makes it long enough.
pub mod Notices
pub mod Answers
pub mod Handling
pub mod Erased
use qup.Prelude.{
  ℕ, zero, suc, ◌+◌, ◌^◌, ◌≤◌, ◌<◌, ◌≡◌, Bool, true, false, not, ◌||◌, Option, none, some, List, [],
  ◌∷◌, ◌++◌, Bytes, Result, ok, err, map_err, length, set, get_elem?, replicate, ltb, leb, ◌==◌,
  if◌then◌else◌,
}
use qup.Prelude.Exec.{Exec, pure, raise, lift, ◌>>=◌, ◌>>◌}
use qup.Word.{to_be_bytes}
use qup.Wire.Codes
use qup.Wire.Error.{Opcode}
use qup.Client.Session.{ByteStream}
use qup.Embassy.Error.{
  ServerError, write, string_too_long, key_name_too_long, value_not_encoded, bad_node_id, panicked,
}
use qup.Embassy.Key.{WireValueRef, WireValueError}
use qup.Embassy.Keys.{key_count, caps}
use qup.Embassy.Sum.{compute_segmented_checksum}
use qup.Embassy.Stream.{send_frame}
use qup.Embassy.Validator.{validate_wire_string}
use qup.Embassy.Incoming
use qup.Embassy.Incoming.{IncomingRequest, read_request}

-- ERROR_UNKNOWN_KEYREF, ERROR_NOT_ALLOWED, ERROR_TYPE_MISMATCH
abbrev pub error_unknown_keyref : ℕ
error_unknown_keyref = 0x01

abbrev pub error_not_allowed : ℕ
error_not_allowed = 0x02

abbrev pub error_type_mismatch : ℕ
error_type_mismatch = 0x03

-- The trait, over the state of a key.
pub record ErasedKey (K : Type 0) : Type 0 where
  pub keyref : K → ℕ
  pub keyflags : K → ℕ
  pub name : K → Bytes
  pub readable : K → Bool
  pub writable : K → Bool
  pub observable : K → Bool
  pub generation : K → ℕ
  pub encode_current_value : K → Result Bytes WireValueError
  pub write_and_encode : WireValueRef → Exec K WireValueError Bytes
  pub attach_notifier : K → K

-- The stream, the keys, and the two arrays of `run`.
pub record Serving (S K : Type 0) : Type 0 where
  pub stream : S
  pub keys : List K
  pub observed : List Bool
  pub seen_generation : List ℕ

-- `observed[index]` and `seen_generation[index]`, which are as long as the list of keys
abbrev pub flag_at : List Bool → ℕ → Bool
flag_at flags i = elim (get_elem? flags i) [ none ↦ false | some b ↦ b ]

abbrev pub count_at : List ℕ → ℕ → ℕ
count_at counts i = elim (get_elem? counts i) [ none ↦ 0 | some n ↦ n ]

module _ {S E K : Type 0} (io_stream : ByteStream S E) (erased : ErasedKey K)
    (has_observable_keys : Bool) where
  abbrev pub Serves : Type 0 → Type 0
  Serves A = Exec (Serving S K) (ServerError E) A

  abbrev pub write_part : Bytes → Exec S (ServerError E) (Unit {0})
  write_part bytes s = let (done, s') = io_stream.write_all bytes s in (map_err write done, s')

  -- The four or five writes of a response, once its checksum is there.
  unfoldable pub write_parts : List Bytes → Exec S (ServerError E) (Unit {0})
  write_parts [] = pure tt
  write_parts (part ∷ parts) = let rest = write_parts parts in write_part part >> rest

  unfoldable pub send_segments : Opcode → ℕ → List Bytes → Exec S (ServerError E) (Unit {0})
  unfolding write_parts compute_segmented_checksum
  send_segments opcode payload_len segments = elim (compute_segmented_checksum opcode segments) [
    | none ↦ raise panicked
    | some checksum ↦
        write_parts ((opcode ∷ to_be_bytes 2 payload_len) ∷ (segments ++ ((checksum ∷ []) ∷ [])))
  ]

  unfoldable pub send_str16_response : Opcode → Bytes → Exec S (ServerError E) (Unit {0})
  unfolding send_segments
  send_str16_response opcode value =
      let string_len = length value in
      if ltb (string_len + 2) (2 ^ 16)
      then send_segments opcode (string_len + 2) (to_be_bytes 2 string_len ∷ value ∷ [])
      else raise string_too_long

  unfoldable pub send_key_response : K → Exec S (ServerError E) (Unit {0})
  unfolding send_segments
  send_key_response key =
      let name = erased.name key in
      let string_len = length name in
      if ltb (string_len + 3) (2 ^ 16)
      then send_segments Codes.key (string_len + 3)
          ((erased.keyflags key ∷ []) ∷ to_be_bytes 2 string_len ∷ name ∷ [])
      else raise key_name_too_long

  unfoldable pub send_void_key_response : Exec S (ServerError E) (Unit {0})
  unfolding send_frame
  send_void_key_response = send_frame io_stream Codes.key (0x00 ∷ 0x00 ∷ 0x00 ∷ [])

  unfoldable pub send_error : ℕ → Exec S (ServerError E) (Unit {0})
  unfolding send_frame
  send_error code = send_frame io_stream Codes.error (code ∷ [])

  abbrev pub on_stream : Exec S (ServerError E) (Unit {0}) → Serves (Unit {0})
  on_stream m serving = let (done, s) = m serving.stream in (done, record serving { stream = s })

  -- `find_slot`, with the key of the slot.
  unfoldable pub slot_from : ℕ → ℕ → List K → Option (ℕ × K)
  slot_from index keyref [] = none
  slot_from index keyref (key ∷ keys) =
      let rest = slot_from (suc index) keyref keys in
      if erased.keyref key == keyref then some (index, key) else rest

  abbrev pub keyrefs : List K → List ℕ
  keyrefs [] = []
  keyrefs (key ∷ keys) = erased.keyref key ∷ keyrefs keys

  -- The guard `keyref >= self.key_count()` and the lookup of the slot.
  abbrev pub with_slot : ℕ → (ℕ → K → Serves (Unit {0})) → Serves (Unit {0}) → Serves (Unit {0})
  with_slot keyref found missing serving =
      if leb (key_count (keyrefs serving.keys)) keyref
      then on_stream (send_error error_unknown_keyref) serving
      else elim (slot_from 0 keyref serving.keys) [
        | none ↦ missing serving
        | some (index, key) ↦ found index key serving
      ]

  abbrev pub not_allowed : Serves (Unit {0})
  not_allowed = on_stream (send_error error_not_allowed)

  unfoldable pub answer_key : ℕ → K → Serves (Unit {0})
  unfolding send_key_response
  answer_key index key = on_stream (send_key_response key)

  abbrev pub answer_value : Result Bytes WireValueError → Serves (Unit {0})
  answer_value (ok bytes) = on_stream (send_frame io_stream Codes.value bytes)
  answer_value (err e) = raise value_not_encoded

  unfoldable pub answer_get : ℕ → K → Serves (Unit {0})
  unfolding send_error send_frame
  answer_get index key =
      if not (erased.readable key)
      then not_allowed
      else answer_value (erased.encode_current_value key)

  -- Each error of a write is a type mismatch.
  abbrev pub answer_written : Result Bytes WireValueError → Serves (Unit {0})
  answer_written (ok bytes) = on_stream (send_frame io_stream Codes.written bytes)
  answer_written (err e) = on_stream (send_error error_type_mismatch)

  unfoldable pub answer_write : WireValueRef → ℕ → K → Serves (Unit {0})
  unfolding send_error send_frame
  answer_write value index key serving =
      if not (erased.writable key)
      then not_allowed serving
      else let (written, key') = erased.write_and_encode value key in
        answer_written written (record serving { keys = set serving.keys index key' })

  abbrev pub watch : Bool → ℕ → K → Serving S K → Serving S K
  watch flag index key serving = record serving {
    observed = set serving.observed index flag;
    seen_generation = set serving.seen_generation index (erased.generation key);
  }

  unfoldable pub answer_observe : ℕ → K → Serves (Unit {0})
  unfolding send_error send_frame
  answer_observe index key serving =
      if not (erased.observable key)
      then not_allowed serving
      else on_stream (send_frame io_stream Codes.ok []) (watch true index key serving)

  abbrev pub send_ok : Serves (Unit {0})
  send_ok = on_stream (send_frame io_stream Codes.ok [])

  unfoldable pub answer_unobserve : ℕ → K → Serves (Unit {0})
  unfolding send_frame
  answer_unobserve index key serving = send_ok (watch false index key serving)

  unfoldable pub handle_request : Bytes → IncomingRequest → Serves (Unit {0})
  unfolding send_frame send_error send_str16_response send_void_key_response answer_key answer_get
      answer_write answer_observe answer_unobserve slot_from key_count caps
  handle_request node_id Incoming.ping = send_ok
  handle_request node_id Incoming.identify =
      on_stream (send_str16_response Codes.identified node_id)
  handle_request node_id Incoming.get_caps =
      on_stream (send_str16_response Codes.caps (caps has_observable_keys))
  handle_request node_id Incoming.get_keytab_len = λ serving.
      on_stream
        (send_frame io_stream Codes.keytablen (to_be_bytes 2 (key_count (keyrefs serving.keys))))
        serving
  handle_request node_id (Incoming.get_key keyref) =
      with_slot keyref answer_key (on_stream send_void_key_response)
  handle_request node_id (Incoming.get keyref) = with_slot keyref answer_get not_allowed
  handle_request node_id (Incoming.write keyref value) =
      with_slot keyref (answer_write value) not_allowed
  handle_request node_id (Incoming.observe keyref) = with_slot keyref answer_observe not_allowed
  handle_request node_id (Incoming.unobserve keyref) = with_slot keyref answer_unobserve send_ok

  -- The body of the loop of `flush_notifications`.
  unfoldable pub flush_key : ℕ → K → Serves (Unit {0})
  unfolding send_frame
  flush_key index key serving =
      let generation = erased.generation key in
      if not (flag_at serving.observed index) || not (erased.observable key)
      then (ok tt, serving)
      else if generation == count_at serving.seen_generation index
      then (ok tt, serving)
      else on_stream (send_frame io_stream Codes.changed (to_be_bytes 2 (erased.keyref key)))
          (record serving { seen_generation = set serving.seen_generation index generation })

  unfoldable pub flush_from : ℕ → List K → Serves (Unit {0})
  unfolding flush_key
  flush_from index [] = pure tt
  flush_from index (key ∷ keys) =
      let rest = flush_from (suc index) keys in flush_key index key >> rest

  unfoldable pub flush_notifications : Serves (Unit {0})
  unfolding flush_from
  flush_notifications serving =
      if not has_observable_keys then (ok tt, serving) else flush_from 0 serving.keys serving

  -- attach_notifiers
  abbrev pub attach_notifiers : List K → List K
  attach_notifiers [] = []
  attach_notifiers (key ∷ keys) = erased.attach_notifier key ∷ attach_notifiers keys

  -- What `run` does before its loop, after the test of the node ID.
  abbrev pub fresh : List K → S → Serving S K
  fresh keys s = record {
    stream = s;
    keys = attach_notifiers keys;
    observed = replicate (length keys) false;
    seen_generation = replicate (length keys) 0;
  }

  unfoldable pub start_serving : Bytes → List K → S → Result (Serving S K) (ServerError E)
  unfolding validate_wire_string
  start_serving node_id keys s = elim (validate_wire_string node_id) [
    | err error ↦ err (bad_node_id error)
    | ok _ ↦ ok (fresh keys s)
  ]

  abbrev pub reading : {A : Type 0} → Exec S (ServerError E) A → Serves A
  reading m serving = let (r, s) = m serving.stream in (r, record serving { stream = s })

  -- A round of the loop that handles a request, and one that a signal of a key wakes.
  unfoldable pub run_request : ℕ → Bytes → Serves (Unit {0})
  unfolding handle_request flush_notifications read_request
  run_request max_str node_id = do
    incoming ← reading (read_request io_stream max_str)
    handle_request node_id incoming
    flush_notifications
