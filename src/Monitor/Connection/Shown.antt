-- ===== src/Monitor/Connection/Shown.antt =====
-- One round of `drain_changed_keys` of crates/qup-test-tui/src/network.rs: a key is taken from the list,
-- read and shown.
use qup.Prelude.{
  ℕ, ◌+◌, ◌≤◌, ◌<◌, ◌≡◌, ◌≢◌, refl, ap, ◌∙◌, inl, inr, Bool-cases, Bool, true, false, ◌||◌, Option,
  none, some, [], ◌∷◌, ◌++◌, List, Bytes, Result, ok, err, map_err, length, ◌==◌, arith,
}
use qup.Prelude.Exec.{continue, ◌>>◌}
use qup.Word.{contains}
use qup.Client.Encode.{Value}
use qup.Client.Message.{KeyInfo}
use qup.Decimal.{Text}
use qup.Monitor.App.{NetworkEvent, value_updated}
use qup.Monitor.Text.{format_value}
use qup.Monitor.Worker.{Link, Trouble, enqueue_changed_keys, read_value_with_changes}
use qup.Monitor.Worker.Ending.{IsBounded, EndsWithin, read_value_with_changes-EndsWithin}
use qup.Monitor.Worker.Reports.{Reports, Completes, read_value_with_changes-Completes}
use qup.Monitor.Table.{Problem, refresh_failed, unfinished, Worker, pop_changed}
use qup.Monitor.Refresh.{enqueue, send_event, refresh_key}

pub pop_changed_none : (pending : List ℕ) → pop_changed pending ≡ none → pending ≡ []
unfolding pop_changed
pop_changed_none [] h = refl
pop_changed_none (first ∷ pending) h = ground (arith, h)

pub pop_changed_last :
    (pending : List ℕ) (keyref : ℕ) (rest : List ℕ)
    → pop_changed pending ≡ some (keyref, rest)
    → pending ≡ rest ++ keyref ∷ []
unfolding pop_changed
pop_changed_last [] keyref rest h = cc
pop_changed_last (first ∷ pending) keyref rest h =
    go (pop_changed pending) refl (pop_changed_last pending)
  where
    go :
        (popped : Option (ℕ × List ℕ))
        → pop_changed pending ≡ popped
        → ((k : ℕ) (r : List ℕ) → pop_changed pending ≡ some (k, r) → pending ≡ r ++ k ∷ [])
        → first ∷ pending ≡ rest ++ keyref ∷ []
    go none e ih =
        let alone : some (first, []) ≡ some (keyref, rest) = rw e at h in
        let nothing : pending ≡ [] = pop_changed_none pending e in ground (arith, alone, nothing)
    go (some (last, more)) e ih =
        let whole : some (last, first ∷ more) ≡ some (keyref, rest) = rw e at h in
        let before : pending ≡ more ++ last ∷ [] = ih last more e in ground (arith, whole, before)

-- An event that shows the key.
abbrev pub updates : {X : Type 0} → ℕ → NetworkEvent X → Bool
updates keyref (value_updated updated value last_read) = updated == keyref
updates keyref _ = false

unfoldable pub is_updated : {X : Type 0} → ℕ → List (NetworkEvent X) → Bool
is_updated keyref [] = false
is_updated keyref (event ∷ events) = updates keyref event || is_updated keyref events

pub is_updated-append :
    {X : Type 0} (keyref : ℕ) (xs ys : List (NetworkEvent X))
    → is_updated keyref (xs ++ ys) ≡ (is_updated keyref xs || is_updated keyref ys)
unfolding is_updated
is_updated-append keyref [] ys = refl
is_updated-append keyref (x ∷ xs) ys = ground (arith, is_updated-append keyref xs ys)

pub nothing_listed : (keyref : ℕ) → contains [] keyref ≢ true
unfolding contains
nothing_listed keyref = λ h. cc

nothing_before :
    (keyref : ℕ) (keyrefs : List ℕ)
    → (contains [] keyref || contains keyrefs keyref) ≡ contains keyrefs keyref
unfolding contains
nothing_before keyref keyrefs = ground arith

-- The fault is not that fuel was used up.
abbrev pub IsFault : {X : Type 0} → Problem X → Type 0
IsFault problem =
    (problem ≢ unfinished) × ((name : Bytes) → problem ≢ refresh_failed name Trouble.unfinished)

module _ {S X : Type 0} (link : Link S X) (notices_left : S → ℕ) where
  -- The keys that were reported on the way were queued, and some events were told.
  pub record Steps (before after : Worker S X) : Type 0 where
    pub reported : List ℕ
    pub heard : Reports link before.client reported after.client
    pub changed : List ℕ
    pub queued : after.pending_changed ≡ enqueue_changed_keys before.pending_changed changed
    pub complete : (keyref : ℕ) → contains changed keyref ≡ contains reported keyref
    pub fewer : length changed + notices_left after.client ≤ notices_left before.client
    pub told : List (NetworkEvent (Problem X))
    pub appended : after.events ≡ before.events ++ told

  -- The key was shown, or there was a fault.
  abbrev pub Shows : ℕ → Worker S X → Result (Unit {0}) (Problem X) × Worker S X → Type 0
  Shows keyref before (ok done, after) =
      (steps : Steps before after) × (is_updated keyref steps.told ≡ true)
  Shows keyref before (err problem, after) = IsFault problem

module _ {S X : Type 0} (link : Link S X) (escape_debug : Bytes → Text) (notices_left : S → ℕ)
    (fuel : ℕ) where
  pub send_event-Shows :
      (keyref : ℕ) (value : Text) (last_read : Option ℕ) (changed reported : List ℕ)
      (before worker : Worker S X)
      → Reports link before.client reported worker.client
      → ((k : ℕ) → contains changed k ≡ contains reported k)
      → worker.pending_changed ≡ enqueue_changed_keys before.pending_changed changed
      → worker.events ≡ before.events
      → length changed + notices_left worker.client ≤ notices_left before.client
      → Shows link notices_left keyref before
          (send_event link escape_debug fuel (value_updated keyref value last_read) worker)
  unfolding send_event is_updated
  send_event-Shows keyref value last_read changed reported before worker heard complete queued same
        fewer =
      elim (Bool-cases (link.is_viewer_open worker.client)) [
        | inl e ↦ rw e (
          record {
            reported = reported;
            heard = heard;
            changed = changed;
            queued = queued;
            complete = complete;
            fewer = fewer;
            told = value_updated keyref value last_read ∷ [];
            appended = ap (λ events. events ++ value_updated keyref value last_read ∷ []) same;
          },
          ground arith,
        )
        | inr e ↦ rw e ((λ k. cc), (λ name k. cc))
      ]

  module _ (bounded : IsBounded link notices_left) where
    pub refresh_key-Shows :
        (keyref : ℕ) (key : KeyInfo) (worker : Worker S X)
        → notices_left worker.client < fuel
        → Shows link notices_left keyref worker
            (refresh_key link escape_debug fuel keyref key worker)
    unfolding refresh_key
    refresh_key-Shows keyref key worker few =
        go (read_value_with_changes link fuel keyref worker.client).0
          (read_value_with_changes link fuel keyref worker.client).1
          (read_value_with_changes-EndsWithin link notices_left bounded fuel keyref worker.client
            few)
          (read_value_with_changes-Completes link fuel keyref worker.client)
      where
        go :
            (r : Result (Value × List ℕ) (Trouble X)) (s : S)
            → EndsWithin link notices_left bounded (notices_left worker.client) (r, s)
            → Completes link [] worker.client (r, s)
            → Shows link notices_left keyref worker (
                continue
                  (map_err (refresh_failed key.name) r, record worker { client = s })
                  (λ read. enqueue (read.1) >> (λ after.
                    send_event link escape_debug fuel
                      (value_updated keyref
                        (format_value escape_debug (read.0))
                        (some (link.now after.client)))
                      after)))
        go (err trouble) s h c = ((λ k. cc), (λ name k. h.0 (ground (arith, k))))
        go (ok (value, changed)) s h c =
            send_event-Shows keyref _ _ changed c.reported worker
              (record worker {
                client = s;
                pending_changed = enqueue_changed_keys worker.pending_changed changed;
              })
              c.heard (λ k. c.same k ∙ nothing_before k c.reported) refl refl h
