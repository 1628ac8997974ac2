-- ===== src/Monitor/Worker.antt =====
-- crates/qup-test-tui/src/network.rs: the worker that keeps the connection and the table of values.
pub mod Changes
pub mod Waiting
pub mod Ending
pub mod Reports
use qup.Prelude.{
  ℕ, zero, suc, ◌+◌, ◌-◌, ◌*◌, ◌^◌, Bool, true, false, not, Option, none, some, [], ◌∷◌, ◌++◌, List,
  Bytes, Result, ok, err, map_err, ◌==◌, if◌then◌else◌,
}
use qup.Prelude.Exec.{Exec, pure, raise, lift, ◌>>=◌, ◌>>◌}
use qup.Word.{contains}
use qup.Wire.Error.{Opcode}
use qup.Wire.Codes
use qup.Client.Encode.{Value}
use qup.Client.Message.{Message, KeyInfo, ResponseName}
use qup.Monitor.App.{Instant}

-- What the worker does with the client of crates/qup/src/client.rs, and what it sees of its
-- surroundings: the clock, and whether the viewer still holds the other end of the channel. `S` is
-- their state, and `X` the client's errors.
pub record Link (S X : Type 0) : Type 0 where
  pub now : S → Instant
  pub is_viewer_open : S → Bool
  pub send_empty_request : Opcode → Exec S X (Unit {0})
  pub send_keyref_request : Opcode → ℕ → Exec S X (Unit {0})
  pub send_write_request : ℕ → Value → Exec S X (Unit {0})
  pub next_message_timeout : ℕ → Exec S X (Option Message)
  pub connect : Bytes → Exec S X (Unit {0})
  pub identify : Exec S X Bytes
  pub list_keys : Exec S X (List KeyInfo)

-- Two seconds, in nanoseconds.
abbrev pub request_timeout : ℕ
request_timeout = 2 * 10 ^ 9

-- The texts of a request that failed. A wait whose fuel is used up has not ended yet.
pub data Trouble (X : Type 0) : Type 0 where
  send_failed : X → Trouble X
  timed_out_waiting_for : ResponseName → Trouble X
  request_failed : (code : ℕ) → Trouble X
  unexpected_response : Message → Trouble X
  timed_out : Trouble X
  client_failed : X → Trouble X
  unfinished : Trouble X

pub data WriteCommandError (X : Type 0) : Type 0 where
  request connection : Trouble X → WriteCommandError X

unfoldable pub enqueue_changed_key : List ℕ → ℕ → List ℕ
enqueue_changed_key pending_changed keyref =
    if contains pending_changed keyref then pending_changed else pending_changed ++ keyref ∷ []

unfoldable pub enqueue_changed_keys : List ℕ → List ℕ → List ℕ
unfolding enqueue_changed_key
enqueue_changed_keys pending_changed [] = pending_changed
enqueue_changed_keys pending_changed (keyref ∷ keyrefs) =
    enqueue_changed_keys (enqueue_changed_key pending_changed keyref) keyrefs

-- The first pattern of each `match`.
abbrev pub expect_ok : Message → Option (Unit {0})
expect_ok Message.ok = some tt
expect_ok _ = none

abbrev pub expect_value : Message → Option Value
expect_value (Message.value value) = some value
expect_value _ = none

abbrev pub expect_written : Message → Option Value
expect_written (Message.written value) = some value
expect_written _ = none

abbrev pub remaining_time : Instant → Instant → ℕ
remaining_time started now = request_timeout - (now - started)

-- Only an ERROR response is the request's own failure.
abbrev pub write_trouble : {X : Type 0} → Trouble X → WriteCommandError X
write_trouble (request_failed code) = request (request_failed code)
write_trouble trouble = connection trouble

-- The errors of a call, as those of its caller.
abbrev pub mapped : {S E F A : Type 0} → (E → F) → Exec S E A → Exec S F A
mapped f m s = let (r, s') = m s in (map_err f r, s')

module _ {S X : Type 0} where
  abbrev pub accept : {A : Type 0} → Message → Option A → List ℕ → Exec S (Trouble X) (A × List ℕ)
  accept message (some value) changed = pure (value, changed)
  accept message none changed = raise (unexpected_response message)

  module _ {A : Type 0} (answer : Message → Option A) where
    -- The `match` on what was received; `again` is the rest of the loop.
    abbrev pub receive_message :
        (List ℕ → Exec S (Trouble X) (A × List ℕ))
        → List ℕ
        → Option Message
        → Exec S (Trouble X) (A × List ℕ)
    receive_message again changed none = raise timed_out
    receive_message again changed (some (Message.changed keyref)) =
        again (enqueue_changed_key changed keyref)
    receive_message again changed (some (Message.error code)) = raise (request_failed code)
    receive_message again changed (some message) = accept message (answer message) changed

module _ {S X : Type 0} (link : Link S X) where
  -- The rest of the time, unless it is over.
  abbrev pub time_left : ResponseName → Instant → Exec S (Trouble X) ℕ
  time_left name started s =
      let remaining = remaining_time started (link.now s) in
      if remaining == 0 then (err (timed_out_waiting_for name), s) else (ok remaining, s)

  -- The loop that the three waits share; `fuel` bounds the messages that are read.
  unfoldable pub wait_loop :
      {A : Type 0}
      → (Message → Option A)
      → ResponseName
      → Instant
      → ℕ
      → List ℕ
      → Exec S (Trouble X) (A × List ℕ)
  unfolding enqueue_changed_key
  wait_loop answer name started zero changed = raise unfinished
  wait_loop answer name started (suc fuel) changed = do
    remaining ← time_left name started
    message ← mapped client_failed (link.next_message_timeout remaining)
    receive_message answer (wait_loop answer name started fuel) changed message

  module _ (fuel : ℕ) where
    unfoldable pub wait_for_ok_with_changes : Exec S (Trouble X) (List ℕ)
    unfolding wait_loop
    wait_for_ok_with_changes s =
        (do answer ← wait_loop expect_ok ResponseName.ok (link.now s) fuel []; pure (answer.1)) s

    unfoldable pub wait_for_value_with_changes : Exec S (Trouble X) (Value × List ℕ)
    unfolding wait_loop
    wait_for_value_with_changes s = wait_loop expect_value ResponseName.value (link.now s) fuel [] s

    unfoldable pub wait_for_written_with_changes : Exec S (WriteCommandError X) (Value × List ℕ)
    unfolding wait_loop
    wait_for_written_with_changes s =
        mapped write_trouble (wait_loop expect_written ResponseName.written (link.now s) fuel []) s

    unfoldable pub observe_with_changes : ℕ → Exec S (Trouble X) (List ℕ)
    unfolding wait_for_ok_with_changes
    observe_with_changes keyref = do
      mapped send_failed (link.send_keyref_request Codes.observe keyref)
      wait_for_ok_with_changes

    unfoldable pub read_value_with_changes : ℕ → Exec S (Trouble X) (Value × List ℕ)
    unfolding wait_for_value_with_changes
    read_value_with_changes keyref = do
      mapped send_failed (link.send_keyref_request Codes.get keyref)
      wait_for_value_with_changes

    unfoldable pub write_value_with_changes :
        ℕ → Value → Exec S (WriteCommandError X) (Value × List ℕ)
    unfolding wait_for_written_with_changes
    write_value_with_changes keyref value = do
      mapped (λ e. connection (send_failed e)) (link.send_write_request keyref value)
      wait_for_written_with_changes

    unfoldable pub ping_with_changes : Exec S (Trouble X) (List ℕ)
    unfolding wait_for_ok_with_changes
    ping_with_changes = do
      mapped send_failed (link.send_empty_request Codes.ping)
      wait_for_ok_with_changes
