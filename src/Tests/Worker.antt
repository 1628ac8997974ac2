-- ===== src/Tests/Worker.antt =====
-- Runs of the monitor's worker (crates/qup-test-tui/src/network.rs) against a node whose messages are
-- a script.
use qup.Prelude.{
  ℕ, ◌+◌, ◌≡◌, refl, true, Option, none, some, [], ◌∷◌, List, Bytes, Result, ok, err, arith,
}
use qup.Client.Encode.{Value}
use qup.Client.Message.{Message, KeyInfo}
use qup.Word.{AllBytes}
use qup.Client.Session.{ByteStream, Client, FrameDirection, Halt}
use qup.Monitor.Link.{client_link}
use qup.Tests.Script.{Peer, script_stream, patient}
use qup.Decimal.{Text}
use qup.Monitor.App.{WorkerCommand, write_value}
use qup.Monitor.Worker.{Link, request, request_failed, write_value_with_changes}
use qup.Monitor.Worker.Waiting.{IsNoticed, quiet, hears, settled, write_value_with_changes-settled}
use qup.Monitor.Worker.Ending.{notices_of}
use qup.Monitor.Table.{Worker}

abbrev Script : Type 0
Script = List Message

abbrev next_of : Script → Result (Option Message) (Unit {0}) × Script
next_of [] = (ok none, [])
next_of (message ∷ messages) = (ok (some message), messages)

-- Requests succeed, and the clock stands still.
abbrev script_link : Link Script (Unit {0})
script_link = record {
  now = λ script. 0;
  is_viewer_open = λ script. true;
  send_empty_request = λ opcode script. (ok tt, script);
  send_keyref_request = λ opcode keyref script. (ok tt, script);
  send_write_request = λ keyref value script. (ok tt, script);
  next_message_timeout = λ duration. next_of;
  connect = λ addr script. (ok tt, script);
  identify = λ script. (ok [], script);
  list_keys = λ script. (ok [], script);
}

abbrev notices : Script → ℕ
notices [] = 0
notices (message ∷ messages) = notices_of {X = Unit {0}} (ok (some message)) + notices messages

-- Key 3 can be read and key 4 cannot.
abbrev key_3 : KeyInfo
key_3 = record { keyref = 3; keyflags = 0b101; name = 0x78 ∷ [] }

abbrev key_4 : KeyInfo
key_4 = record { keyref = 4; keyflags = 0b100; name = 0x79 ∷ [] }

abbrev plain : Bytes → Text
plain bytes = bytes

-- While key 3 is read the node reports a change of key 4.
abbrev worker_x : Worker Script (Unit {0})
worker_x = record {
  client = Message.changed 4 ∷ Message.value (Value.bool true) ∷ [];
  pending_changed = 3 ∷ [];
  events = [];
}

abbrev commands_x : List WorkerCommand
commands_x = write_value 3 (Value.bool true) ∷ write_value 4 (Value.bool true) ∷ []

abbrev worker_y : Worker Script (Unit {0})
worker_y = record {
  client = Message.written (Value.bool true) ∷ Message.error 2 ∷ [];
  pending_changed = [];
  events = [];
}

settled_x : settled {X = Unit {0}} (4 ∷ []) (Message.error 2) ≡ err (request (request_failed 2))
settled_x = refl

write_value_with_changes-settled_example :
    (changed : List ℕ) × IsNoticed (4 ∷ []) changed
    × (write_value_with_changes script_link 5 3
          (Value.bool true)
          (Message.changed 4 ∷ Message.error 2 ∷ [])
        ≡ (settled changed (Message.error 2), []))
write_value_with_changes-settled_example =
    write_value_with_changes-settled script_link 5 3 (Value.bool true) (4 ∷ []) (Message.error 2)
      refl (hears 4 (λ h. cc) refl (quiet refl)) (λ h. cc) refl refl (omega arith)

-- The value of key 3, as a frame.
abbrev value_frame : Bytes
value_frame = 0x67 ∷ 0x00 ∷ 0x02 ∷ 0x01 ∷ 0x01 ∷ 0x95 ∷ []

value_frame-AllBytes : AllBytes value_frame
value_frame-AllBytes = omega arith

abbrev quiet_frame : FrameDirection → Bytes → Unit {0} → Unit {0}
quiet_frame direction frame trace = trace

abbrev peer_stream : ByteStream Peer (Unit {0})
peer_stream = script_stream value_frame value_frame-AllBytes

abbrev connected :
    Bytes → Client Peer (Unit {0}) → Result (Unit {0}) (Halt (Unit {0})) × Client Peer (Unit {0})
connected addr client = (ok tt, client)

abbrev peer_link : Link (Client Peer (Unit {0})) (Halt (Unit {0}))
peer_link = client_link peer_stream quiet_frame patient connected (λ s. 0) (λ s. true) 10

abbrev worker_z : Worker (Client Peer (Unit {0})) (Halt (Unit {0}))
worker_z = record {
  client = record { stream = record { position = 0; received = [] }; frame_trace = none };
  pending_changed = 3 ∷ [];
  events = [];
}
