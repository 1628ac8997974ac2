-- ===== src/Monitor/Worker/Ending.antt =====
-- The fuel of the waits in crates/qup-test-tui/src/network.rs.
use qup.Prelude.{
  ℕ, zero, suc, ◌+◌, ◌≤◌, ◌<◌, ◌≡◌, ◌≢◌, refl, inl, inr, Bool-cases, Option, none, some, [], List,
  Result, ok, err, map_err, length, ◌==◌, arith,
}
use qup.Prelude.Exec.{Exec, continue}
use qup.Wire.Error.{Opcode}
use qup.Wire.Codes
use qup.Client.Message.{Message, ResponseName}
use qup.Monitor.App.{Instant}
use qup.Monitor.Worker.{
  Link, Trouble, send_failed, client_failed, unfinished, enqueue_changed_key, expect_value,
  remaining_time, accept, receive_message, wait_loop, read_value_with_changes,
  wait_for_value_with_changes,
}
use qup.Monitor.Worker.Changes.{length-enqueue_changed_key}

-- Of a node that sends a bounded number of notices: how many are left.
abbrev pub notices_of : {X : Type 0} → Result (Option Message) X → ℕ
notices_of (ok (some (Message.changed keyref))) = 1
notices_of _ = 0

pub notices_of_small : {X : Type 0} (r : Result (Option Message) X) → notices_of r ≤ 1
notices_of_small (ok none) = omega arith
notices_of_small (ok (some Message.ok)) = omega arith
notices_of_small (ok (some (Message.caps _))) = omega arith
notices_of_small (ok (some (Message.identified _))) = omega arith
notices_of_small (ok (some (Message.keytab_len _))) = omega arith
notices_of_small (ok (some (Message.key _ _))) = omega arith
notices_of_small (ok (some (Message.value _))) = omega arith
notices_of_small (ok (some (Message.written _))) = omega arith
notices_of_small (ok (some (Message.error _))) = omega arith
notices_of_small (ok (some (Message.changed _))) = omega arith
notices_of_small (err e) = omega arith

pub record IsBounded {S X : Type 0} (link : Link S X) (notices_left : S → ℕ) : Type 0 where
  pub receives :
      (duration : ℕ) (s s' : S) (r : Result (Option Message) X)
      → link.next_message_timeout duration s ≡ (r, s')
      → notices_of r + notices_left s' ≤ notices_left s
  pub asks :
      (opcode : Opcode) (keyref : ℕ) (s : S)
      → notices_left (link.send_keyref_request opcode keyref s).1 ≤ notices_left s

module _ {S X : Type 0} (link : Link S X) (notices_left : S → ℕ)
    (bounded : IsBounded link notices_left) where
  -- The call ended, and the keys that it reports are notices that were received.
  abbrev pub EndsWithin : {A : Type 0} → ℕ → Result (A × List ℕ) (Trouble X) × S → Type 0
  EndsWithin notices (ok (value, changed), s) = length changed + notices_left s ≤ notices
  EndsWithin notices (err trouble, s) = (trouble ≢ unfinished) × (notices_left s ≤ notices)

  EndsWithin-weaken :
      {A : Type 0} (low high : ℕ) (result : Result (A × List ℕ) (Trouble X) × S)
      → low ≤ high
      → EndsWithin low result
      → EndsWithin high result
  EndsWithin-weaken low high (ok (value, changed), s) le h = omega (arith, le, h)
  EndsWithin-weaken low high (err trouble, s) le h = (h.0, omega (arith, le, h.1))

  accept-EndsWithin :
      {A : Type 0} (message : Message) (answered : Option A) (changed : List ℕ) (s : S)
      (notices : ℕ)
      → notices_left s ≤ notices
      → EndsWithin (length changed + notices) (accept message answered changed s)
  accept-EndsWithin message (some value) changed s notices fewer = omega (arith, fewer)
  accept-EndsWithin message none changed s notices fewer = ((λ k. cc), omega (arith, fewer))

  receive_message-EndsWithin :
      {A : Type 0} (answer : Message → Option A) (again : List ℕ → Exec S (Trouble X) (A × List ℕ))
      (changed : List ℕ) (notices : ℕ) (received : Option Message) (s : S)
      → notices_of {X = X} (ok received) + notices_left s ≤ notices
      → ((c : List ℕ)
          → notices_left s < notices
          → EndsWithin (length c + notices_left s) (again c s))
      → EndsWithin (length changed + notices) (receive_message answer again changed received s)
  receive_message-EndsWithin answer again changed notices none s fewer ends =
      ((λ k. cc), omega (arith, fewer))
  receive_message-EndsWithin answer again changed notices (some (Message.changed keyref)) s fewer
        ends =
      EndsWithin-weaken _ _ (again (enqueue_changed_key changed keyref) s)
        (omega (arith, fewer, length-enqueue_changed_key changed keyref))
        (ends (enqueue_changed_key changed keyref) (omega (arith, fewer)))
  receive_message-EndsWithin answer again changed notices (some (Message.error code)) s fewer ends =
      ((λ k. cc), omega (arith, fewer))
  receive_message-EndsWithin answer again changed notices (some Message.ok) s fewer ends =
      accept-EndsWithin _ _ changed s notices (omega (arith, fewer))
  receive_message-EndsWithin answer again changed notices (some (Message.caps text)) s fewer ends =
      accept-EndsWithin _ _ changed s notices (omega (arith, fewer))
  receive_message-EndsWithin answer again changed notices (some (Message.identified name)) s fewer
        ends =
      accept-EndsWithin _ _ changed s notices (omega (arith, fewer))
  receive_message-EndsWithin answer again changed notices (some (Message.keytab_len count)) s fewer
        ends =
      accept-EndsWithin _ _ changed s notices (omega (arith, fewer))
  receive_message-EndsWithin answer again changed notices (some (Message.key keyflags name)) s fewer
        ends =
      accept-EndsWithin _ _ changed s notices (omega (arith, fewer))
  receive_message-EndsWithin answer again changed notices (some (Message.value value)) s fewer
        ends =
      accept-EndsWithin _ _ changed s notices (omega (arith, fewer))
  receive_message-EndsWithin answer again changed notices (some (Message.written value)) s fewer
        ends =
      accept-EndsWithin _ _ changed s notices (omega (arith, fewer))

  -- Enough fuel for the notices that are left lets the wait end, whatever it waits for, and it reports
  -- no more keys than notices were received.
  wait_loop-EndsWithin :
      {A : Type 0} (answer : Message → Option A) (name : ResponseName) (started : Instant)
      (fuel : ℕ) (changed : List ℕ) (s : S)
      → notices_left s < fuel
      → EndsWithin
          (length changed + notices_left s)
          (wait_loop link answer name started fuel changed s)
  unfolding wait_loop
  wait_loop-EndsWithin answer name started zero changed s h = absurd (omega (arith, h))
  wait_loop-EndsWithin {A} answer name started (suc fuel) changed s h =
      elim (Bool-cases (remaining_time started (link.now s) == 0)) [
        | inl e ↦ simp e ((λ k. cc), omega arith)
        | inr e ↦ simp e (
            go (link.next_message_timeout (remaining_time started (link.now s)) s).0
              (link.next_message_timeout (remaining_time started (link.now s)) s).1
              (bounded.receives (remaining_time started (link.now s)) s
                (link.next_message_timeout (remaining_time started (link.now s)) s).1
                (link.next_message_timeout (remaining_time started (link.now s)) s).0 refl)
              (λ s' c few.
                wait_loop-EndsWithin answer name started fuel c s' (omega (arith, few, h))))
      ]
    where
      go :
          (r : Result (Option Message) X) (s' : S)
          → notices_of r + notices_left s' ≤ notices_left s
          → ((t : S) (c : List ℕ)
              → notices_left t < notices_left s
              → EndsWithin
                  (length c + notices_left t)
                  (wait_loop link answer name started fuel c t))
          → EndsWithin (length changed + notices_left s) (
              continue
                (map_err client_failed r, s')
                (λ message.
                  receive_message answer (wait_loop link answer name started fuel) changed message))
      go (err e) s' fewer ends = ((λ k. cc), omega (arith, fewer))
      go (ok received) s' fewer ends =
          receive_message-EndsWithin answer (wait_loop link answer name started fuel) changed
            (notices_left s) received s' fewer (λ c few. ends s' c few)

  -- A read ends within the notices that are left.
  pub read_value_with_changes-EndsWithin :
      (fuel : ℕ) (keyref : ℕ) (s : S)
      → notices_left s < fuel
      → EndsWithin (notices_left s) (read_value_with_changes link fuel keyref s)
  unfolding read_value_with_changes wait_for_value_with_changes
  read_value_with_changes-EndsWithin fuel keyref s h =
      go (link.send_keyref_request Codes.get keyref s).0
        (link.send_keyref_request Codes.get keyref s).1 (bounded.asks Codes.get keyref s)
    where
      go :
          (r : Result (Unit {0}) X) (s1 : S)
          → notices_left s1 ≤ notices_left s
          → EndsWithin
              (notices_left s)
              (continue (map_err send_failed r, s1) (λ _. wait_for_value_with_changes link fuel))
      go (err e) s1 fewer = ((λ k. cc), fewer)
      go (ok _) s1 fewer =
          EndsWithin-weaken _ _
            (wait_loop link expect_value ResponseName.value (link.now s1) fuel [] s1)
            (omega (arith, fewer))
            (wait_loop-EndsWithin expect_value ResponseName.value (link.now s1) fuel [] s1
              (omega (arith, fewer, h)))
