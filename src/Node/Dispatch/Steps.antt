-- ===== src/Node/Dispatch/Steps.antt =====
-- The node never panics, and every frame that it queues can be delivered, whatever happens to it.
use qup.Prelude.{
  ℕ, ◌<◌, ◌+◌, ◌≡◌, refl, Bool, true, false, Option, none, some, List, Bytes, Result, ok, err,
  if◌then◌else◌, arith,
}
use qup.Prelude.Exec.{pure, ◌>>=◌, ◌>>◌}
use qup.Wire.Codes
use qup.Wire.Message.Types.{
  RequestRef, MessageRef, request, ordinary_response, compatibility_request, compatibility_response,
  error, changed,
}
use qup.Node.Keys.{KeySpec, key_spec, can_observe, validate_keyref, err_unknown_keyref}
use qup.Node.Frames.{
  Panic, WireValue, encode_keytab_len, encode_key, encode_identified, encode_caps, encode_ok,
  encode_error, encode_value_response,
}
use qup.Node.Frames.Delivery.{
  Delivers, encode_ok-Delivers, encode_identified-Delivers, encode_keytab_len-Delivers,
  encode_key-Delivers, encode_value_response-Delivers, encode_error-Delivers, encode_caps-Delivers,
  encode_changed-Delivers,
}
use qup.Node.State.{SharedState, WriteSuccess, get_value, write_value}
use qup.Node.State.Valid.{
  Valid, IsHeldValue, IsAnnounced, KeepsValid, SendsValue, get_value-SendsValue,
  write_value-KeepsValid, update_voltage-Valid, flush_mirror_update-Valid,
}
use qup.Node.Registry.{
  tell_frame, ConnectionHandle, new_handle, send, observe, unobserve, find, register, unregister,
  broadcast_changed,
}
use qup.Node.Dispatch.{
  Node, on_handle, reply, announce, answer_write, answer_get, answer_key, answer_observe,
  answer_unobserve, dispatch_request, dispatch_message, Event, connected, voltage_tick,
  second_passed, disconnected, closed, mirror_wake, message, take_scheduled, wake, step, observing,
  unobserving, dropped, with_handle,
}
use qup.Node.Dispatch.Safe.{
  Queued, AllQueued, Safe, Safely, returned, Safely-continue, find-Queued, replace-AllQueued,
  insert-AllQueued, remove-AllQueued, send-Queued, tell_all-AllQueued,
}

on_handle-Safely :
    (id : ℕ) (action : ConnectionHandle → Bool × ConnectionHandle) (node : Node)
    → ((handle : ConnectionHandle) → Queued handle → Queued (action handle).1)
    → Safe node
    → Safely (on_handle id action node)
on_handle-Safely id action node keeps safe = go (find id node.registry.connections) refl
  where
    go :
        (h : Option ConnectionHandle)
        → find id node.registry.connections ≡ h
        → Safely (on_handle id action node)
    go none e = rw (e, on_handle) (returned false node refl safe)
    go (some handle) e =
        rw (e, on_handle)
          (returned (action handle).0 (with_handle id (action handle).1 node) refl (record {
            queued =
                replace-AllQueued id (action handle).1 node.registry.connections safe.queued
                  (keeps handle (find-Queued id node.registry.connections handle safe.queued e));
            valid = safe.valid;
          }))

reply-Safely :
    (id : ℕ) (frame : Result Bytes Panic) (node : Node)
    → Delivers frame
    → Safe node
    → Safely (reply id frame node)
unfolding reply
reply-Safely id frame node (bytes, is, deliverable) safe =
    rw is (on_handle-Safely id (send bytes) node (λ h q. send-Queued bytes h deliverable q) safe)

announce-Safely :
    (changed_keyref : Option ℕ) (node : Node)
    → IsAnnounced changed_keyref
    → Safe node
    → Safely (announce changed_keyref node)
unfolding broadcast_changed tell_frame
announce-Safely none node h safe = returned tt node refl safe
announce-Safely (some keyref) node h safe =
    let (frame, is, deliverable) = encode_changed-Delivers keyref h in
    rw is (
      returned tt _ refl (record {
        queued = tell_all-AllQueued keyref frame node.registry.connections deliverable safe.queued;
        valid = safe.valid;
      }))

answer_get-Safely :
    (id : ℕ) (r : Result WireValue ℕ) (node : Node)
    → SendsValue r
    → Safe node
    → Safely (answer_get id r node)
unfolding answer_get
answer_get-Safely id (ok value) node h safe =
    reply-Safely id (encode_value_response Codes.value value) node
      (encode_value_response-Delivers value h).0 safe
answer_get-Safely id (err code) node h safe =
    reply-Safely id (encode_error code) node (encode_error-Delivers code h) safe

-- The code of a refusal is a byte.
abbrev IsCode : Result (Unit {0}) ℕ → Type 0
IsCode (ok u) = Unit {0}
IsCode (err code) = code < 256

answer_key-Safely :
    (id keyref : ℕ) (spec : Option KeySpec) (node : Node)
    → key_spec keyref ≡ spec
    → Safe node
    → Safely (answer_key id spec node)
unfolding answer_key
answer_key-Safely id keyref none node is safe =
    reply-Safely id (encode_error err_unknown_keyref) node
      (encode_error-Delivers err_unknown_keyref (omega arith)) safe
answer_key-Safely id keyref (some spec) node is safe =
    reply-Safely id (encode_key spec) node (encode_key-Delivers keyref spec is) safe

answer_write-Safely :
    (id : ℕ) (r : Result WriteSuccess ℕ) (node : Node)
    → KeepsValid (r, node.state)
    → AllQueued node.registry.connections
    → Safely (answer_write id r node)
unfolding answer_write
answer_write-Safely id (err code) node (small, valid) queued =
    reply-Safely id (encode_error code) node (encode_error-Delivers code small)
      (record { queued = queued; valid = valid })
answer_write-Safely id (ok success) node (sendable, announced, valid) queued =
    Safely-continue (reply id (encode_value_response Codes.written success.value) node)
      (λ sent. if sent then (announce success.changed_keyref >> pure true) else pure false)
      (reply-Safely id (encode_value_response Codes.written success.value) node
        (encode_value_response-Delivers success.value sendable).1
        (record { queued = queued; valid = valid }))
      (after success.changed_keyref announced)
  where
    after :
        (changed_keyref : Option ℕ)
        → IsAnnounced changed_keyref
        → (sent : Bool) (n : Node) → Safe n
        → Safely ((if sent then (announce changed_keyref >> pure true) else pure false) n)
    after changed_keyref announced true n safe =
        Safely-continue (announce changed_keyref n) (λ u. pure true)
          (announce-Safely changed_keyref n announced safe) (λ u m s. returned true m refl s)
    after changed_keyref announced false n safe = returned false n refl safe

answer_observe-Safely :
    (id keyref : ℕ) (r : Result (Unit {0}) ℕ) (node : Node)
    → IsCode r
    → Safe node
    → Safely (answer_observe id keyref r node)
unfolding answer_observe observe
answer_observe-Safely id keyref (err code) node small safe =
    reply-Safely id (encode_error code) node (encode_error-Delivers code small) safe
answer_observe-Safely id keyref (ok u) node small safe =
    Safely-continue (reply id encode_ok node)
      (λ sent. if sent then (on_handle id (observing keyref) >>= λ done. pure true) else pure false)
      (reply-Safely id encode_ok node encode_ok-Delivers safe) after
  where
    after :
        (sent : Bool) (n : Node)
        → Safe n
        → Safely (
            (if sent then (on_handle id (observing keyref) >>= λ done. pure true) else pure false)
              n)
    after true n safe =
        Safely-continue (on_handle id (observing keyref) n) (λ done. pure true)
          (on_handle-Safely id (observing keyref) n (λ h q. q) safe)
          (λ u m s. returned true m refl s)
    after false n safe = returned false n refl safe

answer_unobserve-Safely :
    (id keyref : ℕ) (r : Result (Unit {0}) ℕ) (node : Node)
    → IsCode r
    → Safe node
    → Safely (answer_unobserve id keyref r node)
unfolding answer_unobserve unobserve
answer_unobserve-Safely id keyref (err code) node small safe =
    reply-Safely id (encode_error code) node (encode_error-Delivers code small) safe
answer_unobserve-Safely id keyref (ok u) node small safe =
    Safely-continue (on_handle id (unobserving keyref) node) (λ done. reply id encode_ok)
      (on_handle-Safely id (unobserving keyref) node (λ h q. q) safe)
      (λ done n s. reply-Safely id encode_ok n encode_ok-Delivers s)

can_observe-IsCode : (keyref : ℕ) → IsCode (can_observe keyref)
unfolding can_observe
can_observe-IsCode keyref = ground arith

validate_keyref-IsCode : (keyref : ℕ) → IsCode (validate_keyref keyref)
unfolding validate_keyref
validate_keyref-IsCode keyref = ground arith

-- The strings of a message fit a frame, as those of a message that was decoded from one do.
abbrev pub IsReceived : MessageRef → Type 0
IsReceived (request (RequestRef.write keyref value)) = IsHeldValue value
IsReceived _ = Unit {0}

dispatch_request-Safely :
    (id : ℕ) (r : RequestRef) (node : Node)
    → IsReceived (request r)
    → Safe node
    → Safely (dispatch_request id r node)
unfolding dispatch_request
dispatch_request-Safely id RequestRef.ping node h safe =
    reply-Safely id encode_ok node encode_ok-Delivers safe
dispatch_request-Safely id RequestRef.identify node h safe =
    reply-Safely id encode_identified node encode_identified-Delivers safe
dispatch_request-Safely id RequestRef.get_keytab_len node h safe =
    reply-Safely id encode_keytab_len node encode_keytab_len-Delivers safe
dispatch_request-Safely id (RequestRef.get_key keyref) node h safe =
    answer_key-Safely id keyref (key_spec keyref) node refl safe
dispatch_request-Safely id (RequestRef.get keyref) node h safe =
    answer_get-Safely id (get_value keyref node.state) node
      (get_value-SendsValue keyref node.state safe.valid) safe
dispatch_request-Safely id (RequestRef.write keyref value) node h safe =
    let (written, state) = write_value keyref value node.state in
    answer_write-Safely id written (record node { state = state })
      (write_value-KeepsValid keyref value node.state safe.valid h) safe.queued
dispatch_request-Safely id (RequestRef.observe keyref) node h safe =
    answer_observe-Safely id keyref (can_observe keyref) node (can_observe-IsCode keyref) safe
dispatch_request-Safely id (RequestRef.unobserve keyref) node h safe =
    answer_unobserve-Safely id keyref (validate_keyref keyref) node (validate_keyref-IsCode keyref)
      safe

pub dispatch_message-Safely :
    (id : ℕ) (m : MessageRef) (node : Node)
    → IsReceived m
    → Safe node
    → Safely (dispatch_message id m node)
unfolding dispatch_message
dispatch_message-Safely id compatibility_request node h safe =
    reply-Safely id encode_caps node encode_caps-Delivers safe
dispatch_message-Safely id (request r) node h safe = dispatch_request-Safely id r node h safe
dispatch_message-Safely id (ordinary_response r) node h safe = returned false node refl safe
dispatch_message-Safely id (compatibility_response c) node h safe = returned false node refl safe
dispatch_message-Safely id (error e) node h safe = returned false node refl safe
dispatch_message-Safely id (changed k) node h safe = returned false node refl safe

abbrev pub IsPossible : Event → Type 0
IsPossible (message id m) = IsReceived m
IsPossible _ = Unit {0}

wake-Safely :
    (generation : ℕ) (left : Option (List ℕ)) (node : Node)
    → Safe node
    → Safely (wake generation left node)
unfolding wake
wake-Safely generation none node safe = returned tt node refl safe
wake-Safely generation (some left) node safe =
    let (announced, valid) =
      flush_mirror_update-Valid generation (record node.state { scheduled = left })
        (rescheduled node.state left safe.valid) in
    announce-Safely _ _ announced (record { queued = safe.queued; valid = valid })
  where
    rescheduled :
        (state : SharedState) (left : List ℕ)
        → Valid state
        → Valid (record state { scheduled = left })
    rescheduled state left valid = ground arith

ticked : (state : SharedState) (n : ℕ) → Valid state → Valid (record state { elapsed = n })
ticked state n valid = ground arith

-- Whatever happens to a safe node, no task panics and the node stays safe: every frame in a queue
-- is the wire form of a message that a client receives, and every stored value can be sent.
pub step-Safely :
    (event : Event) (node : Node) → IsPossible event → Safe node → Safely (step event node)
unfolding step register unregister
step-Safely connected node h safe = returned tt _ refl (record {
  queued =
      insert-AllQueued node.registry.next_id new_handle node.registry.connections safe.queued tt;
  valid = safe.valid;
})
step-Safely (disconnected id) node h safe = returned tt _ refl (record {
  queued = remove-AllQueued id node.registry.connections safe.queued;
  valid = safe.valid;
})
step-Safely (closed id) node h safe =
    Safely-continue (on_handle id dropped node) (λ done. pure tt)
      (on_handle-Safely id dropped node (λ x q. q) safe) (λ u m s. returned tt m refl s)
step-Safely (message id m) node h safe =
    Safely-continue (dispatch_message id m node) (λ goes_on. pure tt)
      (dispatch_message-Safely id m node h safe) (λ u n s. returned tt n refl s)
step-Safely voltage_tick node h safe =
    let (announced, valid) = update_voltage-Valid node.state safe.valid in
    announce-Safely _ _ announced (record { queued = safe.queued; valid = valid })
step-Safely (mirror_wake generation) node h safe =
    wake-Safely generation (take_scheduled generation node.state.scheduled) node safe
step-Safely second_passed node h safe =
    returned tt _ refl (record {
      queued = safe.queued;
      valid = ticked node.state (node.state.elapsed + 1) safe.valid;
    })
