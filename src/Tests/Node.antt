-- ===== src/Tests/Node.antt =====
-- Runs of the test node of crates/qup-test-node/src/main.rs.
use qup.Prelude.{ℕ, ◌≡◌, ◌≢◌, refl, true, Bool, some, [], ◌∷◌, Bytes, ok, err, arith}
use qup.Word.{AllBytes, pos, to_be_bytes}
use qup.Wire.Checksum.{compute_checksum}
use qup.Wire.Scalar.{readable_bit}
use qup.Wire.Value.{ValueRef}
use qup.Wire.Message.Types.{RequestRef, request}
use qup.Client.Session.{ByteStream}
use qup.Node.Keys.{key_spec, key_gp2_u64}
use qup.Node.Frames.{WireValue}
use qup.Node.State.{
  SharedState, WriteSuccess, new_state, permitted, get_value, read_key, write_value,
}
use qup.Node.State.Valid.{new_state-Valid, get_value-permitted}
use qup.Node.State.Writes.{as_sent, get_value-write_value}
use qup.Node.State.Changes.{Announces, write_value-Announces}
use qup.Node.Dispatch.{Node, Event, connected, step}
use qup.Node.Dispatch.Safe.{Safe, Safely}
use qup.Node.Dispatch.Steps.{IsPossible}
use qup.Node.Frames.{encode_changed}
use qup.Node.Registry.{ConnectionHandle, ConnectionRegistry, find, broadcast_changed}
use qup.Node.Registry.Broadcast.{told_if_there, broadcast_changed-told}
use qup.Node.Dispatch.Reachable.{Reachable, start, next, new_node, Reachable-Safe}
use qup.Node.Reading.{Reading, ended, read_next_message, read_frames}
use qup.Node.Reading.Task.{Takes, LeavesSafe, read_next_message-Takes, read_frames-Safe}
use qup.Tests.Script.{Peer, script_stream}

abbrev gp2_write : ValueRef
gp2_write = ValueRef.i64 (pos 7)

abbrev gp2_written : WriteSuccess
gp2_written = record { value = WireValue.i64 (pos 7); changed_keyref = some key_gp2_u64 }

abbrev after_write : SharedState
after_write = record (new_state 0) { gp2_u64 = 7 }

writes_gp2 : write_value key_gp2_u64 gp2_write (new_state 0) ≡ (ok gp2_written, after_write)
unfolding write_value qup.Node.Keys.expect_u64 qup.Node.Keys.observable_change
writes_gp2 = refl

get_value-write_value_example :
    (as_sent gp2_write ≡ some gp2_written.value)
    × (permitted readable_bit (key_spec key_gp2_u64) ≡ ok tt
        → get_value key_gp2_u64 after_write ≡ ok gp2_written.value)
    × ((other : ℕ)
        → other ≢ key_gp2_u64
        → get_value other after_write ≡ get_value other (new_state 0))
get_value-write_value_example =
    get_value-write_value key_gp2_u64 gp2_write (new_state 0) after_write gp2_written (omega arith)
      writes_gp2

write_value-Announces_example :
    Announces key_gp2_u64
      (read_key key_gp2_u64 (new_state 0))
      (read_key key_gp2_u64 after_write)
      (some key_gp2_u64)
write_value-Announces_example =
    write_value-Announces key_gp2_u64 gp2_write (new_state 0) after_write gp2_written
      (new_state-Valid 0) (omega arith) writes_gp2

dead_refused : get_value 9 (new_state 0) ≡ err 2
unfolding get_value
dead_refused = refl

get_value-permitted_example : permitted readable_bit (key_spec 9) ≡ err 2
get_value-permitted_example = get_value-permitted 9 2 (new_state 0) dead_refused

abbrev connected_node : Node
connected_node = (step connected (new_node 0)).1

connects : step connected (new_node 0) ≡ (ok tt, connected_node)
unfolding step
connects = refl

one_connection : Reachable 0 connected_node
one_connection = next connected start tt connects

Reachable-Safe_example :
    Safe connected_node × ((event : Event) → IsPossible event → Safely (step event connected_node))
Reachable-Safe_example = Reachable-Safe 0 connected_node one_connection

-- A PING, and then half of a header.
abbrev ping_script : Bytes
ping_script = 0x50 ∷ 0x00 ∷ 0x00 ∷ 0xb0 ∷ 0x50 ∷ []

ping_script-AllBytes : AllBytes ping_script
ping_script-AllBytes = omega arith

abbrev ping_peer : ByteStream Peer (Unit {0})
ping_peer = script_stream ping_script ping_script-AllBytes

abbrev is_eof : Unit {0} → Bool
is_eof e = true

abbrev opened : Peer
opened = record { position = 0; received = [] }

reads_ping : (read_next_message ping_peer is_eof opened).0 ≡ ok (some (request RequestRef.ping))
unfolding read_next_message compute_checksum qup.Word.from_be_bytes qup.Wire.Frame.parse_frame
    qup.Wire.Checksum.frame_sum qup.Wire.Opcode.validate qup.Wire.Message.decode_message
    qup.Wire.Message.decode qup.Wire.Message.decode_empty qup.Wire.Message.expect_empty
reads_ping = refl

read_next_message-Takes_example :
    Takes ping_peer is_eof opened
      (read_next_message ping_peer is_eof opened).0
      (read_next_message ping_peer is_eof opened).1
read_next_message-Takes_example = read_next_message-Takes ping_peer is_eof opened

abbrev reading : Reading ping_peer is_eof
reading = record { source = opened; node = connected_node }

serves_ping : (read_frames ping_peer is_eof 3 1 reading).0 ≡ ended
unfolding read_frames step qup.Word.from_be_bytes qup.Wire.Frame.parse_frame
    qup.Wire.Checksum.frame_sum qup.Wire.Opcode.validate qup.Wire.Message.decode_message
    qup.Wire.Message.decode qup.Wire.Message.decode_empty qup.Wire.Message.expect_empty
serves_ping = refl

read_frames-Safe_example : LeavesSafe ping_peer is_eof (read_frames ping_peer is_eof 3 1 reading)
read_frames-Safe_example =
    read_frames-Safe ping_peer is_eof 3 1 reading (Reachable-Safe 0 connected_node one_connection).0

abbrev watcher : ConnectionHandle
watcher = record { receiving = true; queue = []; observed_mask = 8 }

abbrev watched_registry : ConnectionRegistry
watched_registry = record { next_id = 2; connections = (1, watcher) ∷ [] }

abbrev told_registry : ConnectionRegistry
told_registry = (broadcast_changed key_gp2_u64 watched_registry).1

broadcasts : broadcast_changed key_gp2_u64 watched_registry ≡ (ok tt, told_registry)
unfolding broadcast_changed qup.Word.to_be_bytes
broadcasts = refl

broadcast_changed-told_example :
    (frame : Bytes) × (encode_changed key_gp2_u64 ≡ ok frame)
    × (told_registry.next_id ≡ watched_registry.next_id)
    × ((id : ℕ)
        → find id told_registry.connections
          ≡ told_if_there key_gp2_u64 frame (find id watched_registry.connections))
broadcast_changed-told_example =
    broadcast_changed-told key_gp2_u64 watched_registry told_registry broadcasts
