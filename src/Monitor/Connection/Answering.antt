-- ===== src/Monitor/Connection/Answering.antt =====
-- The events of `process_commands` in crates/qup-test-tui/src/network.rs, beside its commands.
use qup.Prelude.{
  ℕ, ◌≡◌, Bool, true, false, [], ◌∷◌, ◌++◌, List, Bytes, Result, ok, err, if◌then◌else◌,
}
use qup.Prelude.Exec.{pure}
use qup.Wire.Scalar.{is_readable}
use qup.Client.Encode.{Value}
use qup.Client.Message.{KeyInfo}
use qup.Decimal.{Text}
use qup.Monitor.App.{
  Instant, NetworkEvent, write_succeeded, write_failed, WorkerCommand, refresh_all_readable,
  write_value,
}
use qup.Monitor.Text.{format_value}
use qup.Monitor.Worker.{Link, Trouble, request, write_value_with_changes}
use qup.Monitor.Table.{Problem, Worker, write_refused}
use qup.Monitor.Refresh.{Working, refresh_key}

-- The events that answer a write.
abbrev writes_of : {X : Type 0} → NetworkEvent X → List (NetworkEvent X)
writes_of (write_succeeded keyref value last_read) = write_succeeded keyref value last_read ∷ []
writes_of (write_failed keyref error) = write_failed keyref error ∷ []
writes_of _ = []

unfoldable pub writes_in : {X : Type 0} → List (NetworkEvent X) → List (NetworkEvent X)
writes_in [] = []
writes_in (event ∷ events) = writes_of event ++ writes_in events

abbrev is_done : {X : Type 0} → Result (Unit {0}) (Problem X) → Bool
is_done (ok done) = true
is_done (err problem) = false

module _ {S X : Type 0} (link : Link S X) (escape_debug : Bytes → Text) (fuel : ℕ) where
  -- From one state of the client to another, the commands were run in order, and these events answer
  -- their writes: each write is called once, and the event says what the call returned. A run that
  -- was cut short answers the commands before the one at which it stopped.
  pub data Replies
      : Bool → S → List WorkerCommand → List (NetworkEvent (Problem X)) → S → Type 0 where
    all : {s : S} → Replies true s [] [] s
    cut : {s s' : S} {commands : List WorkerCommand} → Replies false s commands [] s'
    reads :
        {done : Bool} {s s1 s' : S} {commands : List WorkerCommand}
        {answers : List (NetworkEvent (Problem X))}
        → Replies done s1 commands answers s'
        → Replies done s (refresh_all_readable ∷ commands) answers s'
    succeeds :
        {done : Bool} {s s1 s' : S} {commands : List WorkerCommand}
        {answers : List (NetworkEvent (Problem X))} {keyref : ℕ} {value : Value} (written : Value)
        (changed : List ℕ) (last_read : Instant)
        → write_value_with_changes link fuel keyref value s ≡ (ok (written, changed), s1)
        → Replies done s1 commands answers s'
        → Replies done s
            (write_value keyref value ∷ commands)
            (write_succeeded keyref (format_value escape_debug written) last_read ∷ answers)
            s'
    fails :
        {done : Bool} {s s1 s' : S} {commands : List WorkerCommand}
        {answers : List (NetworkEvent (Problem X))} {keyref : ℕ} {value : Value}
        (trouble : Trouble X)
        → write_value_with_changes link fuel keyref value s ≡ (err (request trouble), s1)
        → Replies done s1 commands answers s'
        → Replies done s
            (write_value keyref value ∷ commands)
            (write_failed keyref (write_refused trouble) ∷ answers)
            s'

  pub record IsAnswered (commands : List WorkerCommand) (before : Worker S X)
      (result : Result (Unit {0}) (Problem X) × Worker S X) : Type 0 where
    pub answers : List (NetworkEvent (Problem X))
    pub told : writes_in result.1.events ≡ writes_in before.events ++ answers
    pub replied : Replies (is_done result.0) before.client commands answers result.1.client

  -- A step that answers no write.
  abbrev IsQuiet : Worker S X → Result (Unit {0}) (Problem X) × Worker S X → Type 0
  IsQuiet worker x = writes_in x.1.events ≡ writes_in worker.events

  abbrev reread_key : KeyInfo → Working S X (Unit {0})
  reread_key key =
      if is_readable key.keyflags
      then refresh_key link escape_debug fuel key.keyref key
      else pure tt

  -- How a command is run: the connection fails, with no answer, or the command is done.
  data Ran (command : WorkerCommand) (worker : Worker S X)
      : Result (Unit {0}) (Problem X) × Worker S X → Type 0 where
    breaks :
        (problem : Problem X) (after : Worker S X)
        → writes_in after.events ≡ writes_in worker.events
        → Ran command worker (err problem, after)
    goes_on :
        (middle : Worker S X) (answers : List (NetworkEvent (Problem X)))
        → writes_in middle.events ≡ writes_in worker.events ++ answers
        → ((done : Bool) (commands : List WorkerCommand) (rest : List (NetworkEvent (Problem X)))
              (s' : S)
            → Replies done middle.client commands rest s'
            → Replies done worker.client (command ∷ commands) (answers ++ rest) s')
        → Ran command worker (ok tt, middle)
