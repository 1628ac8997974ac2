-- ===== src/Monitor/Worker/Reports.antt =====
-- The CHANGED messages that the worker of crates/qup-test-tui/src/network.rs receives while it reads a
-- key, and the keys that the read reports.
use qup.Prelude.{
  ℕ, zero, suc, ◌≡◌, refl, ◌∙◌, inl, inr, Bool-cases, ◌||◌, Option, none, some, [], ◌∷◌, ◌++◌, List,
  Result, ok, err, map_err, ◌==◌, append_assoc, arith,
}
use qup.Prelude.Exec.{Exec, continue}
use qup.Word.{contains}
use qup.Wire.Error.{Opcode}
use qup.Wire.Codes
use qup.Client.Message.{Message, ResponseName}
use qup.Monitor.App.{Instant}
use qup.Monitor.Worker.{
  Link, Trouble, send_failed, client_failed, enqueue_changed_key, expect_value, remaining_time,
  accept, receive_message, wait_loop, read_value_with_changes, wait_for_value_with_changes,
}
use qup.Monitor.Worker.Changes.{contains-append, contains-enqueue_changed_key}

-- The key that a received message reports as changed.
abbrev pub reported_by : {X : Type 0} → Result (Option Message) X → List ℕ
reported_by (ok (some (Message.changed keyref))) = keyref ∷ []
reported_by _ = []

module _ {S X : Type 0} (link : Link S X) where
  -- From one state to another the worker asks for keys and receives messages, and these are the keys
  -- of all the CHANGED messages among them, in order.
  pub data Reports : S → List ℕ → S → Type 0 where
    idle : {s : S} → Reports s [] s
    asks :
        {s s1 s' : S} {keyrefs : List ℕ} {r : Result (Unit {0}) X} (opcode : Opcode) (keyref : ℕ)
        → link.send_keyref_request opcode keyref s ≡ (r, s1)
        → Reports s1 keyrefs s'
        → Reports s keyrefs s'
    receives :
        {s s1 s' : S} {keyrefs : List ℕ} {r : Result (Option Message) X} (duration : ℕ)
        → link.next_message_timeout duration s ≡ (r, s1)
        → Reports s1 keyrefs s'
        → Reports s (reported_by r ++ keyrefs) s'

  pub Reports-append :
      {s t u : S} {first second : List ℕ}
      → Reports s first t
      → Reports t second u
      → Reports s (first ++ second) u
  Reports-append idle k = k
  Reports-append (asks opcode keyref e h) k = asks opcode keyref e (Reports-append h k)
  Reports-append {second = second} (receives {keyrefs = keyrefs} {r = r} duration e h) k =
      rw (append_assoc (reported_by r) keyrefs second) (receives duration e (Reports-append h k))

  -- The keys that a call ends with are those that it started with and those that were reported.
  pub record IsComplete (before : List ℕ) (s : S) (after : List ℕ) (s' : S) : Type 0 where
    pub reported : List ℕ
    pub heard : Reports s reported s'
    pub same :
        (keyref : ℕ) → contains after keyref ≡ (contains before keyref || contains reported keyref)

  abbrev pub Completes : {A : Type 0} → List ℕ → S → Result (A × List ℕ) (Trouble X) × S → Type 0
  Completes before s (ok (value, changed), s') = IsComplete before s changed s'
  Completes before s (err trouble, s') = Unit {0}

  asks-Completes :
      {A : Type 0} (changed : List ℕ) (s s1 : S) (keyref : ℕ) (opcode : Opcode)
      (sent : Result (Unit {0}) X) (result : Result (A × List ℕ) (Trouble X) × S)
      → link.send_keyref_request opcode keyref s ≡ (sent, s1)
      → Completes changed s1 result
      → Completes changed s result
  asks-Completes changed s s1 keyref opcode sent (err trouble, s') e h = tt
  asks-Completes changed s s1 keyref opcode sent (ok (value, out), s') e h = record {
    reported = h.reported;
    heard = asks opcode keyref e h.heard;
    same = h.same;
  }

  -- A message is received, and what it reports is queued before the rest of the call.
  receives-Completes :
      {A : Type 0} (before changed : List ℕ) (duration : ℕ) (s s1 : S)
      (r : Result (Option Message) X) (result : Result (A × List ℕ) (Trouble X) × S)
      → link.next_message_timeout duration s ≡ (r, s1)
      → ((keyref : ℕ)
          → contains changed keyref ≡ (contains before keyref || contains (reported_by r) keyref))
      → Completes changed s1 result
      → Completes before s result
  receives-Completes before changed duration s s1 r (err trouble, s') e queued h = tt
  receives-Completes before changed duration s s1 r (ok (value, out), s') e queued h = record {
    reported = reported_by r ++ h.reported;
    heard = receives duration e h.heard;
    same = λ keyref.
        rw (contains-append (reported_by r) h.reported keyref)
          (ground (arith, h.same keyref, queued keyref));
  }

  accept-Completes :
      {A : Type 0} (message : Message) (answered : Option A) (changed : List ℕ) (s : S)
      → Completes changed s (accept message answered changed s)
  unfolding contains
  accept-Completes message none changed s = tt
  accept-Completes message (some value) changed s = record {
    reported = [];
    heard = idle;
    same = λ keyref. ground arith;
  }

  module _ {A : Type 0} (answer : Message → Option A)
      (again : List ℕ → Exec S (Trouble X) (A × List ℕ)) (changed : List ℕ) (duration : ℕ)
      (s s1 : S) where
    answered-Completes :
        (message : Message)
        → link.next_message_timeout duration s ≡ (ok (some message), s1)
        → reported_by {X = X} (ok (some message)) ≡ []
        → Completes changed s (accept message (answer message) changed s1)
    unfolding contains
    answered-Completes message e none_reported =
        receives-Completes changed changed duration s s1 (ok (some message)) _ e
          (λ keyref. rw none_reported (ground arith))
          (accept-Completes message (answer message) changed s1)

    receive_message-Completes :
        (received : Option Message)
        → link.next_message_timeout duration s ≡ (ok received, s1)
        → ((c : List ℕ) → Completes c s1 (again c s1))
        → Completes changed s (receive_message answer again changed received s1)
    unfolding contains
    receive_message-Completes none e ends = tt
    receive_message-Completes (some (Message.changed keyref)) e ends =
        receives-Completes changed (enqueue_changed_key changed keyref) duration s s1
          (ok (some (Message.changed keyref))) (again (enqueue_changed_key changed keyref) s1) e
          (λ k. contains-enqueue_changed_key changed keyref k ∙ ground arith)
          (ends (enqueue_changed_key changed keyref))
    receive_message-Completes (some (Message.error code)) e ends = tt
    receive_message-Completes (some Message.ok) e ends = answered-Completes _ e refl
    receive_message-Completes (some (Message.caps text)) e ends = answered-Completes _ e refl
    receive_message-Completes (some (Message.identified name)) e ends = answered-Completes _ e refl
    receive_message-Completes (some (Message.keytab_len count)) e ends = answered-Completes _ e refl
    receive_message-Completes (some (Message.key keyflags name)) e ends =
        answered-Completes _ e refl
    receive_message-Completes (some (Message.value value)) e ends = answered-Completes _ e refl
    receive_message-Completes (some (Message.written value)) e ends = answered-Completes _ e refl

  wait_loop-Completes :
      {A : Type 0} (answer : Message → Option A) (name : ResponseName) (started : Instant)
      (fuel : ℕ) (changed : List ℕ) (s : S)
      → Completes changed s (wait_loop link answer name started fuel changed s)
  unfolding wait_loop
  wait_loop-Completes answer name started zero changed s = tt
  wait_loop-Completes {A} answer name started (suc fuel) changed s =
      elim (Bool-cases (remaining_time started (link.now s) == 0)) [
        | inl e ↦ simp e tt
        | inr e ↦ simp e (
            go (link.next_message_timeout (remaining_time started (link.now s)) s).0
              (link.next_message_timeout (remaining_time started (link.now s)) s).1 refl
              (λ s' c. wait_loop-Completes answer name started fuel c s'))
      ]
    where
      go :
          (r : Result (Option Message) X) (s' : S)
          → link.next_message_timeout (remaining_time started (link.now s)) s ≡ (r, s')
          → ((t : S) (c : List ℕ) → Completes c t (wait_loop link answer name started fuel c t))
          → Completes changed s (
              continue
                (map_err client_failed r, s')
                (λ message.
                  receive_message answer (wait_loop link answer name started fuel) changed message))
      go (err e) s' is ends = tt
      go (ok received) s' is ends =
          receive_message-Completes answer (wait_loop link answer name started fuel) changed _ s s'
            received is (ends s')

  -- A read reports the keys of exactly the CHANGED messages that it receives.
  pub read_value_with_changes-Completes :
      (fuel keyref : ℕ) (s : S) → Completes [] s (read_value_with_changes link fuel keyref s)
  unfolding read_value_with_changes wait_for_value_with_changes
  read_value_with_changes-Completes fuel keyref s =
      go (link.send_keyref_request Codes.get keyref s).0
        (link.send_keyref_request Codes.get keyref s).1 refl
    where
      go :
          (r : Result (Unit {0}) X) (s1 : S)
          → link.send_keyref_request Codes.get keyref s ≡ (r, s1)
          → Completes [] s
              (continue (map_err send_failed r, s1) (λ _. wait_for_value_with_changes link fuel))
      go (err e) s1 is = tt
      go (ok sent) s1 is =
          asks-Completes [] s s1 keyref Codes.get (ok sent)
            (wait_loop link expect_value ResponseName.value (link.now s1) fuel [] s1) is
            (wait_loop-Completes expect_value ResponseName.value (link.now s1) fuel [] s1)
