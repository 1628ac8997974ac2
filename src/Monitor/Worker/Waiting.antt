-- ===== src/Monitor/Worker/Waiting.antt =====
-- The waits in crates/qup-test-tui/src/network.rs against the messages of a node.
use qup.Prelude.{
  ℕ, zero, suc, ◌+◌, ◌-◌, ◌<◌, ◌≡◌, ◌≢◌, refl, true, false, Option, some, [], ◌∷◌, List, Result, ok,
  err, length, ne→==, arith,
}
use qup.Prelude.Exec.{Exec}
use qup.Client.Encode.{Value}
use qup.Client.Message.{Message, ResponseName}
use qup.Client.Session.{is_changed}
use qup.Monitor.App.{Instant}
use qup.Word.{contains}
use qup.Monitor.Worker.Changes.{
  is_distinct, contains-enqueue_changed_keys, enqueue_changed_keys-distinct,
}
use qup.Monitor.Worker.{
  Link, Trouble, request_failed, unexpected_response, WriteCommandError, request, connection,
  write_trouble, mapped, enqueue_changed_key, enqueue_changed_keys, expect_written, remaining_time,
  receive_message, wait_loop, wait_for_written_with_changes, write_value_with_changes,
}

module _ {S X : Type 0} (link : Link S X) (started : Instant) where
  -- The node sends notices, one after the other, each while there is time left.
  pub data Hears : S → List ℕ → S → Type 0 where
    quiet : {s s' : S} → s ≡ s' → Hears s [] s'
    hears :
        {s s1 s' : S} {keyrefs : List ℕ} (keyref : ℕ)
        → remaining_time started (link.now s) ≢ 0
        → link.next_message_timeout (remaining_time started (link.now s)) s
          ≡ (ok (some (Message.changed keyref)), s1)
        → Hears s1 keyrefs s'
        → Hears s (keyref ∷ keyrefs) s'

  -- The loop skips the notices, and keeps what they report.
  pub wait_loop-Hears :
      {A : Type 0} (answer : Message → Option A) (name : ResponseName) (fuel : ℕ) {s s' : S}
      (keyrefs : List ℕ)
      → Hears s keyrefs s'
      → (changed : List ℕ) (left : ℕ) → fuel ≡ length keyrefs + left
      → wait_loop link answer name started fuel changed s
        ≡ wait_loop link answer name started left (enqueue_changed_keys changed keyrefs) s'
  unfolding wait_loop enqueue_changed_keys
  wait_loop-Hears answer name fuel _ (quiet same) changed left e =
      let all : fuel ≡ left = omega (arith, e) in rw (all, same) refl
  wait_loop-Hears answer name zero _ (hears keyref time next rest) changed left e =
      absurd (omega (arith, e))
  wait_loop-Hears answer name (suc fuel) (_ ∷ keyrefs) (hears keyref time next rest) changed left
        e =
      simp (ne→== _ 0 time, next)
        (wait_loop-Hears answer name fuel keyrefs rest (enqueue_changed_key changed keyref) left
          (omega (arith, e)))

-- A list of keys names the keys of the notices and no others, and none twice.
pub record IsNoticed (keyrefs changed : List ℕ) : Type 0 where
  pub same : (keyref : ℕ) → contains changed keyref ≡ contains keyrefs keyref
  pub distinct : is_distinct changed ≡ true

enqueue_changed_keys-IsNoticed :
    (keyrefs : List ℕ) → IsNoticed keyrefs (enqueue_changed_keys [] keyrefs)
unfolding contains is_distinct
enqueue_changed_keys-IsNoticed keyrefs = record {
  same = contains-enqueue_changed_keys [] keyrefs;
  distinct = enqueue_changed_keys-distinct [] keyrefs refl;
}

-- What a WRITE ends with, when its answer is the message.
abbrev pub settled : {X : Type 0} → List ℕ → Message → Result (Value × List ℕ) (WriteCommandError X)
settled changed (Message.written value) = ok (value, changed)
settled changed (Message.error code) = err (request (request_failed code))
settled changed message = err (connection (unexpected_response message))

module _ {S X : Type 0} (link : Link S X) where
  -- One round of the loop, in which a message comes in time.
  pub wait_loop_round :
      {A : Type 0} (answer : Message → Option A) (name : ResponseName) (started : Instant)
      (fuel : ℕ) (changed : List ℕ) (message : Message) {s s' : S}
      → remaining_time started (link.now s) ≢ 0
      → link.next_message_timeout (remaining_time started (link.now s)) s ≡ (ok (some message), s')
      → wait_loop link answer name started (suc fuel) changed s
        ≡ receive_message answer (wait_loop link answer name started fuel) changed (some message) s'
  unfolding wait_loop
  wait_loop_round answer name started fuel changed message time next =
      simp (ne→== _ 0 time, next) refl

  written-settled :
      (again : List ℕ → Exec S (Trouble X) (Value × List ℕ)) (changed : List ℕ) (message : Message)
      (s : S)
      → is_changed message ≡ false
      → mapped write_trouble (receive_message expect_written again changed (some message)) s
        ≡ (settled changed message, s)
  written-settled again changed Message.ok s h = refl
  written-settled again changed (Message.caps text) s h = refl
  written-settled again changed (Message.identified name) s h = refl
  written-settled again changed (Message.keytab_len count) s h = refl
  written-settled again changed (Message.key keyflags name) s h = refl
  written-settled again changed (Message.value value) s h = refl
  written-settled again changed (Message.written value) s h = refl
  written-settled again changed (Message.error code) s h = refl
  written-settled again changed (Message.changed keyref) s h = cc

  -- A write that was sent, and that the node answers in time, after any notices, ends with the value
  -- written and a list of exactly the keys that the notices named, none of them twice; with ERROR it
  -- is the request that failed, and with any other response the connection.
  pub write_value_with_changes-settled :
      (fuel : ℕ) (keyref : ℕ) (value : Value) (keyrefs : List ℕ) (message : Message)
      {s s1 s2 s3 : S}
      → link.send_write_request keyref value s ≡ (ok tt, s1)
      → Hears link (link.now s1) s1 keyrefs s2
      → remaining_time (link.now s1) (link.now s2) ≢ 0
      → link.next_message_timeout (remaining_time (link.now s1) (link.now s2)) s2
        ≡ (ok (some message), s3)
      → is_changed message ≡ false
      → length keyrefs < fuel
      → (changed : List ℕ) × IsNoticed keyrefs changed
        × (write_value_with_changes link fuel keyref value s ≡ (settled changed message, s3))
  unfolding write_value_with_changes wait_for_written_with_changes
  write_value_with_changes-settled fuel keyref value keyrefs message {s1 = s1} {s3 = s3} sent heard
        time next h more =
      let split : fuel ≡ length keyrefs + suc (fuel - length keyrefs - 1) = omega (arith, more) in
      let left = fuel - length keyrefs - 1 in
      let skipped =
        wait_loop-Hears link (link.now s1) expect_written ResponseName.written fuel keyrefs heard []
          (suc left) split in
      let answered =
        wait_loop_round expect_written ResponseName.written (link.now s1) left
          (enqueue_changed_keys [] keyrefs) message time next in
      (
        enqueue_changed_keys [] keyrefs,
        enqueue_changed_keys-IsNoticed keyrefs,
        simp (sent, skipped, answered)
            (written-settled (wait_loop link expect_written ResponseName.written (link.now s1) left)
              _ message s3 h),
      )
