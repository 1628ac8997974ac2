-- ===== src/Node/Dispatch.antt =====
-- The dispatch of messages in crates/qup-test-node/src/main.rs, and what happens to the node besides:
-- connections come and go, the voltage changes, mirror updates wake.
pub mod Reachable
pub mod Safe
pub mod Steps
use qup.Prelude.{
  ℕ, ◌+◌, Bool, true, false, Option, none, some, List, [], ◌∷◌, Bytes, Result, ok, err, ◌==◌,
  if◌then◌else◌,
}
use qup.Prelude.Exec.{Exec, pure, lift, ◌>>=◌, ◌>>◌}
use qup.Wire.Codes
use qup.Wire.Value.{ValueRef}
use qup.Wire.Message.Types.{
  RequestRef, MessageRef, request, ordinary_response, compatibility_request, compatibility_response,
  error, changed,
}
use qup.Node.Keys.{KeySpec, key_spec, can_observe, validate_keyref, err_unknown_keyref}
use qup.Node.Frames.{
  Panic, WireValue, encode_ok, encode_identified, encode_keytab_len, encode_key,
  encode_value_response, encode_error, encode_caps,
}
use qup.Node.State.{
  SharedState, WriteSuccess, get_value, write_value, update_voltage, flush_mirror_update,
}
use qup.Node.Registry.{
  ConnectionHandle, ConnectionRegistry, Connections, send, observe, unobserve, find, replace,
  register, unregister, broadcast_changed,
}

-- The state that all tasks share.
pub record Node : Type 0 where
  pub registry : ConnectionRegistry
  pub state : SharedState

abbrev pub Serving : Type 0 → Type 0
Serving A = Exec Node Panic A

abbrev with_handle : ℕ → ConnectionHandle → Node → Node
with_handle id handle node = record node {
  registry = record node.registry { connections = replace id handle node.registry.connections };
}

-- The handle of the task's own connection, which is registered until the task ends.
abbrev pub on_handle : ℕ → (ConnectionHandle → Bool × ConnectionHandle) → Serving Bool
on_handle id action node = elim (find id node.registry.connections) [
  | none ↦ (ok false, node)
  | some handle ↦ (ok (action handle).0, with_handle id (action handle).1 node)
]

unfoldable pub reply : ℕ → Result Bytes Panic → Serving Bool
unfolding find replace send
reply id frame = do frame ← lift frame; on_handle id (send frame)

abbrev pub announce : Option ℕ → Serving (Unit {0})
announce none node = (ok tt, node)
announce (some keyref) node =
    let (done, registry) = broadcast_changed keyref node.registry in
    (done, record node { registry = registry })

-- What follows `write_value`, which has already changed the state.
unfoldable pub answer_write : ℕ → Result WriteSuccess ℕ → Serving Bool
unfolding reply broadcast_changed encode_value_response encode_error
answer_write id (err code) = reply id (encode_error code)
answer_write id (ok success) = do
  sent ← reply id (encode_value_response Codes.written success.value)
  if sent then (announce success.changed_keyref >> pure true) else pure false

unfoldable pub answer_get : ℕ → Result WireValue ℕ → Serving Bool
unfolding reply encode_value_response encode_error
answer_get id (ok value) = reply id (encode_value_response Codes.value value)
answer_get id (err code) = reply id (encode_error code)

unfoldable pub answer_key : ℕ → Option KeySpec → Serving Bool
unfolding reply encode_key encode_error
answer_key id none = reply id (encode_error err_unknown_keyref)
answer_key id (some spec) = reply id (encode_key spec)

abbrev observing : ℕ → ConnectionHandle → Bool × ConnectionHandle
observing keyref handle = (true, observe keyref handle)

abbrev unobserving : ℕ → ConnectionHandle → Bool × ConnectionHandle
unobserving keyref handle = (true, unobserve keyref handle)

unfoldable pub answer_observe : ℕ → ℕ → Result (Unit {0}) ℕ → Serving Bool
unfolding reply encode_ok encode_error observe find replace
answer_observe id keyref (err code) = reply id (encode_error code)
answer_observe id keyref (ok _) = do
  sent ← reply id encode_ok
  if sent then (on_handle id (observing keyref) >>= λ done. pure true) else pure false

unfoldable pub answer_unobserve : ℕ → ℕ → Result (Unit {0}) ℕ → Serving Bool
unfolding reply encode_ok encode_error unobserve find replace
answer_unobserve id keyref (err code) = reply id (encode_error code)
answer_unobserve id keyref (ok _) = do done ← on_handle id (unobserving keyref); reply id encode_ok

unfoldable pub dispatch_request : ℕ → RequestRef → Serving Bool
unfolding reply answer_key answer_get answer_write answer_observe answer_unobserve encode_ok
    encode_identified encode_keytab_len key_spec get_value write_value can_observe validate_keyref
dispatch_request id RequestRef.ping = reply id encode_ok
dispatch_request id RequestRef.identify = reply id encode_identified
dispatch_request id RequestRef.get_keytab_len = reply id encode_keytab_len
dispatch_request id (RequestRef.get_key keyref) = answer_key id (key_spec keyref)
dispatch_request id (RequestRef.get keyref) =
    λ node. answer_get id (get_value keyref node.state) node
dispatch_request id (RequestRef.write keyref value) = λ node.
    let (written, state) = write_value keyref value node.state in
    answer_write id written (record node { state = state })
dispatch_request id (RequestRef.observe keyref) = answer_observe id keyref (can_observe keyref)
dispatch_request id (RequestRef.unobserve keyref) =
    answer_unobserve id keyref (validate_keyref keyref)

-- Whether the connection goes on.
unfoldable pub dispatch_message : ℕ → MessageRef → Serving Bool
unfolding reply encode_caps dispatch_request
dispatch_message id compatibility_request = reply id encode_caps
dispatch_message id (request r) = dispatch_request id r
dispatch_message id (ordinary_response _) = pure false
dispatch_message id (compatibility_response _) = pure false
dispatch_message id (error _) = pure false
dispatch_message id (changed _) = pure false

-- What can happen to the node. `closed` is the end of a connection's writer task, which drops the
-- receiver of its channel.
pub data Event : Type 0 where
  connected voltage_tick second_passed : Event
  disconnected closed mirror_wake : ℕ → Event
  message : ℕ → MessageRef → Event

abbrev dropped : ConnectionHandle → Bool × ConnectionHandle
dropped handle = (true, record handle { receiving = false })

-- A spawned mirror update wakes: it is one of those that sleep.
unfoldable pub take_scheduled : ℕ → List ℕ → Option (List ℕ)
take_scheduled generation [] = none
take_scheduled generation (g ∷ rest) =
    let later = take_scheduled generation rest in
    if g == generation then some rest else elim later [ none ↦ none | some left ↦ some (g ∷ left) ]

wake : ℕ → Option (List ℕ) → Serving (Unit {0})
wake generation none node = (ok tt, node)
wake generation (some left) node =
    let (changed_keyref, state) =
      flush_mirror_update generation (record node.state { scheduled = left }) in
    announce changed_keyref (record node { state = state })

unfoldable pub step : Event → Serving (Unit {0})
unfolding register unregister find replace dispatch_message update_voltage flush_mirror_update wake
    take_scheduled
step connected node = (ok tt, record node { registry = (register node.registry).1 })
step (disconnected id) node = (ok tt, record node { registry = unregister id node.registry })
step (closed id) node = (on_handle id dropped >>= λ done. pure tt) node
step (message id m) node = (dispatch_message id m >>= λ goes_on. pure tt) node
step voltage_tick node =
    let (changed_keyref, state) = update_voltage node.state in
    announce changed_keyref (record node { state = state })
step (mirror_wake generation) node =
    wake generation (take_scheduled generation node.state.scheduled) node
step second_passed node =
    (ok tt, record node { state = record node.state { elapsed = node.state.elapsed + 1 } })
