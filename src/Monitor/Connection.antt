-- ===== src/Monitor/Connection.antt =====
-- The connection of crates/qup-test-tui/src/network.rs: `run_connection`, the functions that it
-- calls, and `connection_manager`. `fuel` bounds the messages of each wait, and the keys that a drain
-- takes from the list of the changed ones.
pub mod Shown
pub mod Answering
pub mod Draining
use qup.Prelude.{
  ℕ, zero, suc, ◌+◌, ◌-◌, ◌*◌, ◌^◌, Bool, true, false, not, Option, none, some, [], ◌∷◌, ◌++◌, List,
  Bytes, Result, ok, err, map_err, ltb, leb, ◌==◌, if◌then◌else◌,
}
use qup.Prelude.Exec.{Exec, pure, raise, lift, ◌>>=◌, ◌>>◌}
use qup.Wire.Scalar.{is_readable, is_observable}
use qup.Client.Encode.{Value}
use qup.Client.Message.{Message, KeyInfo}
use qup.Decimal.{Text}
use qup.Monitor.App.{
  Instant, KeyRow, NetworkEvent, value_updated, write_succeeded, write_failed, WorkerCommand,
  refresh_all_readable, write_value,
}
use qup.Monitor.Text.{format_value}
use qup.Monitor.Table.{
  Problem, connect_failed, identify_failed, enumeration_failed, connection_lost, observe_failed,
  initial_read_failed, refresh_failed, heartbeat_failed, write_refused, write_broke, viewer_closed,
  connection_closed, unexpected_unsolicited_response, unfinished, Worker, codes,
  initial_display_value, find_key, keys_by_ref, pop_changed,
}
use qup.Monitor.Worker.{
  Link, Trouble, WriteCommandError, request, connection, enqueue_changed_key, enqueue_changed_keys,
  observe_with_changes, read_value_with_changes, write_value_with_changes, ping_with_changes,
}
use qup.Monitor.Refresh.{
  Working, on_client, no_changes, enqueue, now, send_event, reread_all_readable_keys,
  drain_changed_keys,
}

-- One second and three seconds, in nanoseconds.
abbrev pub network_poll : ℕ
network_poll = 10 ^ 9

abbrev pub heartbeat_idle : ℕ
heartbeat_idle = 3 * 10 ^ 9

module _ {S X : Type 0} (link : Link S X) (escape_debug : Bytes → Text) (fuel : ℕ) where
  -- The `match` on what a write answered.
  abbrev pub report_write :
      ℕ → Result (Value × List ℕ) (WriteCommandError X) → Working S X (Unit {0})
  report_write keyref (ok (written, changed)) = do
    enqueue changed
    λ worker.
        send_event link escape_debug fuel
          (write_succeeded keyref (format_value escape_debug written)
            (now link escape_debug fuel worker))
          worker
  report_write keyref (err (request trouble)) =
      send_event link escape_debug fuel (write_failed keyref (write_refused trouble))
  report_write keyref (err (connection trouble)) = raise (write_broke trouble)

  abbrev pub run_command : List KeyInfo → WorkerCommand → Working S X (Unit {0})
  run_command keys refresh_all_readable worker =
      reread_all_readable_keys link escape_debug fuel keys worker
  run_command keys (write_value keyref value) worker =
      let (r, s) = write_value_with_changes link fuel keyref value worker.client in
      report_write keyref r (record worker { client = s })

  -- The `while let` over the commands that have come.
  unfoldable pub process_commands : List KeyInfo → List WorkerCommand → Working S X (Unit {0})
  unfolding reread_all_readable_keys send_event write_value_with_changes format_value
  process_commands keys [] = pure tt
  process_commands keys (command ∷ commands) = do
    run_command keys command
    process_commands keys commands

  abbrev pub row_of : KeyInfo → KeyRow
  row_of key = record { info = key; value = initial_display_value key; last_read = none }

  abbrev pub observe_row : KeyInfo → Working S X (Unit {0})
  observe_row key =
      if is_observable key.keyflags
      then (do
        changed ← on_client (observe_failed key.name) (observe_with_changes link fuel key.keyref)
        enqueue changed)
      else pure tt

  abbrev pub read_row : KeyRow → Working S X KeyRow
  read_row row =
      if is_readable row.info.keyflags
      then (do
        (value, changed) ←
            on_client (initial_read_failed row.info.name)
              (read_value_with_changes link fuel row.info.keyref)
        enqueue changed
        λ worker. (
          ok record row {
            value = format_value escape_debug value;
            last_read = some (now link escape_debug fuel worker);
          },
          worker,
        ))
      else pure row

  -- The two `for`s over the rows.
  unfoldable pub load_rows : List KeyInfo → Working S X (List KeyRow)
  unfolding observe_with_changes read_value_with_changes initial_display_value
  load_rows [] = pure []
  load_rows (key ∷ keys) = do
    observe_row key
    row ← read_row (row_of key)
    rows ← load_rows keys
    pure (row ∷ rows)

  abbrev pub now_after : Working S X Instant
  now_after worker = (ok (now link escape_debug fuel worker), worker)

  -- The `match` on what the poll gave, with the time of the last traffic.
  abbrev pub after_poll : Instant → Option Message → Working S X Instant
  after_poll last_traffic (some (Message.changed keyref)) worker =
      (enqueue (keyref ∷ []) >> now_after) worker
  after_poll last_traffic (some message) worker = (err unexpected_unsolicited_response, worker)
  after_poll last_traffic none worker =
      let beat : Working S X Instant = (do
        changed ← on_client heartbeat_failed (ping_with_changes link fuel)
        enqueue changed
        now_after) in
      if leb heartbeat_idle (now link escape_debug fuel worker - last_traffic)
      then beat worker
      else (ok last_traffic, worker)

  -- A round of the `loop`, with the commands that have come.
  unfoldable pub connection_round :
      List KeyInfo → List WorkerCommand → Instant → Working S X Instant
  unfolding process_commands drain_changed_keys ping_with_changes
  connection_round keys commands last_traffic = do
    process_commands keys commands
    drain_changed_keys link escape_debug fuel keys fuel
    message ← on_client connection_lost (link.next_message_timeout network_poll)
    after_poll last_traffic message

  -- The rounds, until one fails; the input given here ends the run.
  unfoldable pub connection_rounds :
      List KeyInfo → List (List WorkerCommand) → Instant → Working S X (Unit {0})
  unfolding connection_round
  connection_rounds keys [] last_traffic = pure tt
  connection_rounds keys (commands ∷ rounds) last_traffic = do
    traffic ← connection_round keys commands last_traffic
    connection_rounds keys rounds traffic

  unfoldable pub run_connection : Bytes → List (List WorkerCommand) → Working S X (Unit {0})
  unfolding load_rows keys_by_ref connection_rounds drain_changed_keys send_event
  run_connection addr rounds = do
    no_changes
    on_client connect_failed (link.connect addr)
    node_id ← on_client identify_failed link.identify
    keys ← on_client enumeration_failed link.list_keys
    rows ← load_rows keys
    send_event link escape_debug fuel (NetworkEvent.connected node_id rows)
    λ worker.
        (do
          drain_changed_keys link escape_debug fuel (keys_by_ref [] keys) fuel
          connection_rounds (keys_by_ref [] keys) rounds (now link escape_debug fuel worker))
          worker

  -- What `Disconnected` says of a run.
  abbrev pub ended_with : Result (Unit {0}) (Problem X) → Problem X
  ended_with (ok done) = connection_closed
  ended_with (err problem) = problem

  abbrev pub after_send :
      (Worker S X → Worker S X) → Result (Unit {0}) (Problem X) × Worker S X → Worker S X
  after_send next (ok sent, worker) = next worker
  after_send next (err closed, worker) = worker

  -- The attempts to connect, each with the rounds that it goes through; the delay between them is
  -- left out. Without a viewer the manager ends.
  unfoldable pub connection_manager :
      Bytes → List (List (List WorkerCommand)) → Worker S X → Worker S X
  unfolding run_connection send_event
  connection_manager addr [] worker = worker
  connection_manager addr (rounds ∷ attempts) worker =
      let attempt : Worker S X → Worker S X = (λ started.
        let (result, stopped) = run_connection addr rounds started in
        after_send (connection_manager addr attempts) (
          send_event link escape_debug fuel (NetworkEvent.disconnected (ended_with result))
            stopped)) in
      after_send attempt (send_event link escape_debug fuel NetworkEvent.connecting worker)
