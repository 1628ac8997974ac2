-- ===== src/Lib.antt =====
-- Verification of the QUP protocol crates: the wire types, the parsers, the host
-- client, the embassy server, the test node and the test monitor.
--
-- The program moves request, response and notification frames between a client and a node.
-- `crates/qup-core` holds the wire format: opcodes and their directions, frames and their checksum,
-- payload cursors, values, capability strings and typed messages, and frame readers over a byte
-- stream. `crates/qup` is the host's client: it builds frames, sends them and decodes the answers.
-- `crates/qup-embassy` is a node's server over a registry of typed keys. `crates/qup-test-node` is a
-- node for tests: its tasks read frames from their connections, dispatch them to the shared values
-- and queue the answers and the CHANGED notifications; an `Event` is what a task does as one step.
-- `crates/qup-test-tui` is a monitor in the terminal: its main loop shows a table of the node's keys
-- and edits values in a modal; a worker keeps the connection, and the two exchange events and
-- commands over channels.
--
-- Prelude      shared names: native numbers, lists, results, computations with state and errors.
-- Word         `u8` wrapping arithmetic, big-endian words, two's-complement `i64`.
-- Wire/Utf8    `core::str::from_utf8`, byte by byte, with `Utf8Error`.
-- Wire/Error   `FrameError`, `PayloadError`, `WireDirection` (crates/qup-core/src/types/error.rs).
-- Wire/Codes, Wire/Opcode   crates/qup-core/src/types/opcode.rs.
-- Wire/Checksum, Wire/Frame   crates/qup-core/src/parser and src/types/frame.rs.
-- Wire/Cursor  crates/qup-core/src/types/cursor.rs.
-- Wire/Scalar, Wire/Value   crates/qup-core/src/types/scalar.rs and value.rs.
-- Wire/Caps    crates/qup-core/src/types/caps.rs.
-- Wire/Message crates/qup-core/src/types/message.rs.
-- Wire/Reader  crates/qup-core/src/io/sync.rs and asynch.rs, which hold the same code.
-- Client       crates/qup/src/client.rs: Encode (frames and values), Message and Owned (owned
--   messages and errors), Session (`next_message` and the requests), Names (key names).
-- Embassy      crates/qup-embassy/src/lib.rs: Perm, Key (typed keys), Sum (the checksums),
--   Stream (tracked reads, sending), Text (`String<N>` values), Keys (the registry), Validator
--   (`Utf8StreamValidator`), Incoming (`read_request`), Serving (`handle_request`,
--   `flush_notifications`, the rounds of `run`).
-- Node         crates/qup-test-node/src/main.rs: Keys (the key table), Frames (what it sends), State
--   (the values), Registry (connections and what they observe), Dispatch (messages and the steps of
--   the tasks), Reading (`read_frames`).
-- Decimal      `parse`, `to_string`, `trim` and `pop` of Rust's standard library, on texts.
-- Monitor      crates/qup-test-tui/src: App (the state, `App::apply`), Desk (the terminal events and the
--   submitting of values), Input (`handle_event` and what it calls), Geometry, Screen and Text (ui.rs),
--   Main (the rounds of `main`); Worker (the requests and their waits), Table, Refresh (the reads and the
--   drain) and Connection (`run_connection`, `connection_manager`) for network.rs; Link, the client of
--   Client/Session and Client/Timeout as the worker's interface.
-- Tests        runs on concrete bytes, and the headline theorems at concrete inputs.
--
-- Conventions. A byte, a word and a length are numbers; wrap-around is written out as `% 256`, and
-- that a number is a byte is a hypothesis where it matters (`AllBytes`). A borrowed or owned string
-- is the list of its bytes, and `IsUtf8` says what Rust's type says of them. An `Opcode(u8)` or
-- `KeyFlags(u8)` is its byte. An `i64` is an integer in two's-complement range. Methods on
-- `&mut self` are computations that return the new state beside their result, an error included.
-- A transport is a parameter: a record of its operations, with what their documentation says.
--
-- All loops run over a list, or over a counter that the code counts down, but for the loop of
-- `read_request_response`: its fuel bounds the messages it reads, and one unit for each byte that
-- the peer still sends, and one more, is enough. The loop of `discard_exact` has fuel for each
-- byte, and a round takes at least one; so has the loop over an oversized string. The fuel of
-- `read_frames` bounds the messages that a connection's task reads, which nothing else does.
-- The fuel of the monitor's worker bounds the messages of each wait and the keys of a drain: one unit
-- for each notice that the node still sends and for each key in the list, and one more, is enough. The
-- rounds of the monitor's main loop, of its connection and of its attempts to connect are the list
-- of what each of them meets: updates, clock, screen area and event, or the commands that have come.
-- `Client::connect` (TCP) is not modelled, nor are the client's two scratch buffers; Tokio's timers,
-- the clock and the layout of ratatui are parameters. The texts that `Display` writes, the derive
-- macro (it runs at build time), the command-line program, and the widgets that the monitor draws are
-- not modelled, and a text that the monitor formats is what fills it; nor is what the embassy
-- server's `run!` computes at build time, the choice of `run` between a request and a signal, and
-- the waiting of tasks; nor what the test node does outside its state: arguments, the listener,
-- spawning, timers and the task that writes queued frames.
pub mod Prelude
pub mod Word
pub mod Wire
pub mod Client
pub mod Embassy
pub mod Node
pub mod Decimal
pub mod Monitor
mod Tests
