-- ===== src/Monitor/Input/Handled.antt =====
-- The handlers of crates/qup-test-tui/src/app.rs by their reactions: the state, the screen and the
-- commands.
use qup.Prelude.{
  ◌≡◌, refl, ap, ◌∙◌, true, inl, inr, Bool-cases, false, none, some, [], ◌∷◌, ◌++◌, List,
}
use qup.Client.Encode.{Value}
use qup.Monitor.Geometry.{UiGeometry}
use qup.Monitor.App.{
  KeyRow, EditModal, WorkerCommand, refresh_all_readable, write_value, mark_submitting, set_error,
  connection_manager_stopped,
}
use qup.Monitor.Desk.{CrosstermEvent, InputOutcome, Desk, queue_write_command, send_command}
use qup.Monitor.Input.{handle_event}
use qup.Monitor.Input.Valid.{IsWritableKey, IsValidModal, IsValid, open_modal_for_key-IsValid}
use qup.Monitor.Input.Reaction.{
  Field, IsRefresh, Asks, Edit, focuses, types_string, types_number, refuses, Entered, Reaction,
  ignores, leaves, redraws, refreshes, closes, edits, submits, opens,
}
use qup.Monitor.Input.Submitted.{handle_event-Writes, queue_write_command-sent}
use qup.Monitor.Input.Mouse.{handle_event-Reaction}

module _ {X : Type 0} where
  abbrev pub KeepsUnlessRedrawn : Desk X → InputOutcome × Desk X → Type 0
  KeepsUnlessRedrawn desk (outcome, after) = outcome.needs_redraw ≡ false → after ≡ desk

  Reaction-KeepsUnlessRedrawn :
      {geometry : UiGeometry} {event : CrosstermEvent} (desk : Desk X)
      (result : InputOutcome × Desk X)
      → Reaction geometry event desk result
      → KeepsUnlessRedrawn desk result
  Reaction-KeepsUnlessRedrawn desk _ ignores = λ h. refl
  Reaction-KeepsUnlessRedrawn desk _ leaves = λ h. refl
  Reaction-KeepsUnlessRedrawn desk _ redraws = λ h. cc
  Reaction-KeepsUnlessRedrawn desk _ (refreshes e typed) = λ h. cc
  Reaction-KeepsUnlessRedrawn desk _ closes = λ h. cc
  Reaction-KeepsUnlessRedrawn desk _ (edits modal changed e edit) = λ h. cc
  Reaction-KeepsUnlessRedrawn desk _ (submits modal field value e asks entered) = λ h. cc
  Reaction-KeepsUnlessRedrawn desk _ (opens keyref) = λ h. cc

  -- An event whose outcome asks for no redraw leaves the application as it was and gives the
  -- worker no command.
  pub handle_event-KeepsUnlessRedrawn :
      (geometry : UiGeometry) (event : CrosstermEvent) (desk : Desk X)
      → KeepsUnlessRedrawn desk (handle_event geometry event desk)
  handle_event-KeepsUnlessRedrawn geometry event desk =
      Reaction-KeepsUnlessRedrawn desk _ (handle_event-Reaction geometry event desk)

  Edit-IsValidModal :
      (rows : List KeyRow) (modal changed : EditModal X)
      → Edit modal changed
      → IsValidModal rows modal
      → IsValidModal rows changed
  Edit-IsValidModal rows modal _ (focuses focus) h = record {
    of_key = h.of_key;
    numeric = h.numeric;
    settled = h.settled;
  }
  Edit-IsValidModal rows modal _ (types_string text) h = record {
    of_key = h.of_key;
    numeric = h.numeric;
    settled = h.settled;
  }
  Edit-IsValidModal rows modal _ (types_number text keeps) h = record {
    of_key = h.of_key;
    numeric = keeps h.numeric;
    settled = h.settled;
  }
  Edit-IsValidModal rows modal _ (refuses error) h = record {
    of_key = h.of_key;
    numeric = h.numeric;
    settled = λ k. cc;
  }

  queue_write_command-IsValid :
      (modal : EditModal X) (command : WorkerCommand) (desk : Desk X)
      → IsValidModal desk.app.keys modal
      → IsValid (queue_write_command modal command desk).app
  unfolding queue_write_command send_command
  queue_write_command-IsValid modal command desk h = elim (Bool-cases desk.received) [
    | inl e ↦ rw e (record { of_key = h.of_key; numeric = h.numeric; settled = λ k. refl })
    | inr e ↦ rw e (record { of_key = h.of_key; numeric = h.numeric; settled = λ k. cc })
  ]

  abbrev pub IsValidAfter : InputOutcome × Desk X → Type 0
  IsValidAfter (outcome, desk) = IsValid desk.app

  open_valid :
      (desk : Desk X) (modal : EditModal X)
      → desk.app.modal ≡ some modal
      → IsValid desk.app
      → IsValidModal desk.app.keys modal
  open_valid desk modal e valid = rw e at valid

  Reaction-IsValid :
      {geometry : UiGeometry} {event : CrosstermEvent} (desk : Desk X)
      (result : InputOutcome × Desk X)
      → Reaction geometry event desk result
      → IsValid desk.app
      → IsValidAfter result
  unfolding send_command
  Reaction-IsValid desk _ ignores valid = valid
  Reaction-IsValid desk _ leaves valid = valid
  Reaction-IsValid desk _ redraws valid = valid
  Reaction-IsValid desk _ (refreshes e typed) valid = valid
  Reaction-IsValid desk _ closes valid = tt
  Reaction-IsValid desk _ (edits modal changed e edit) valid =
      Edit-IsValidModal desk.app.keys modal changed edit (open_valid desk modal e valid)
  Reaction-IsValid desk _ (submits modal field value e asks entered) valid =
      queue_write_command-IsValid modal _ desk (open_valid desk modal e valid)
  Reaction-IsValid desk _ (opens keyref) valid = open_modal_for_key-IsValid keyref desk.app valid

  -- A terminal event, wherever the pointer stands, keeps the application valid.
  pub handle_event-IsValid :
      (geometry : UiGeometry) (event : CrosstermEvent) (desk : Desk X)
      → IsValid desk.app
      → IsValidAfter (handle_event geometry event desk)
  handle_event-IsValid geometry event desk =
      Reaction-IsValid desk _ (handle_event-Reaction geometry event desk)

  -- What an event gives to the worker: nothing, the order to read all keys again, or the value of the
  -- field or button that the event submits in the open modal, for its key, which the table lists as
  -- writable. The modal then waits.
  pub data Sends (geometry : UiGeometry) (event : CrosstermEvent) (before after : Desk X)
      : Type 0 where
    nothing : after.commands ≡ before.commands → Sends geometry event before after
    refresh :
        before.app.modal ≡ none
        → IsRefresh event
        → after.app ≡ before.app
        → after.commands ≡ before.commands ++ refresh_all_readable ∷ []
        → Sends geometry event before after
    write :
        (modal : EditModal X) (field : Field) (value : Value)
        → before.app.modal ≡ some modal
        → IsWritableKey before.app.keys modal.keyref
        → Asks geometry modal event field
        → Entered modal field value
        → after.app.modal ≡ some (mark_submitting modal)
        → after.commands ≡ before.commands ++ write_value modal.keyref value ∷ []
        → Sends geometry event before after
    -- Without a receiver the modal shows so, and no longer waits.
    undelivered :
        (modal : EditModal X) (field : Field) (value : Value)
        → before.app.modal ≡ some modal
        → Asks geometry modal event field
        → Entered modal field value
        → before.received ≡ false
        → after.app.modal ≡ some (set_error connection_manager_stopped modal)
        → after.commands ≡ before.commands
        → Sends geometry event before after

  abbrev pub SendsAfter : UiGeometry → CrosstermEvent → Desk X → InputOutcome × Desk X → Type 0
  SendsAfter geometry event before (outcome, after) = Sends geometry event before after

  refreshed :
      {geometry : UiGeometry} {event : CrosstermEvent} (desk : Desk X)
      → desk.app.modal ≡ none
      → IsRefresh event
      → Sends geometry event desk (send_command refresh_all_readable desk)
  unfolding send_command
  refreshed desk closed typed = elim (Bool-cases desk.received) [
    | inl e ↦ refresh closed typed refl (rw e refl)
    | inr e ↦ nothing (rw e refl)
  ]

  submitted :
      {geometry : UiGeometry} {event : CrosstermEvent} (desk : Desk X) (modal : EditModal X)
      (field : Field) (value : Value)
      → desk.app.modal ≡ some modal
      → IsWritableKey desk.app.keys modal.keyref
      → Asks geometry modal event field
      → Entered modal field value
      → Sends geometry event desk (queue_write_command modal (write_value modal.keyref value) desk)
  unfolding queue_write_command send_command
  submitted desk modal field value shown writable asks entered = elim (Bool-cases desk.received) [
    | inl e ↦ write modal field value shown writable asks entered (rw e refl) (rw e refl)
    | inr e ↦ undelivered modal field value shown asks entered e (rw e refl) (rw e refl)
  ]

  Reaction-Sends :
      {geometry : UiGeometry} {event : CrosstermEvent} (desk : Desk X)
      (result : InputOutcome × Desk X)
      → Reaction geometry event desk result
      → IsValid desk.app
      → SendsAfter geometry event desk result
  Reaction-Sends desk _ ignores valid = nothing refl
  Reaction-Sends desk _ leaves valid = nothing refl
  Reaction-Sends desk _ redraws valid = nothing refl
  Reaction-Sends desk _ (refreshes e typed) valid = refreshed desk e typed
  Reaction-Sends desk _ closes valid = nothing refl
  Reaction-Sends desk _ (edits modal changed e edit) valid = nothing refl
  Reaction-Sends desk _ (submits modal field value e asks entered) valid =
      submitted desk modal field value e (open_valid desk modal e valid).of_key asks entered
  Reaction-Sends desk _ (opens keyref) valid = nothing refl

  -- A value that the event asks to submit is sent, when the worker is there.
  abbrev pub SubmitsAll : UiGeometry → CrosstermEvent → Desk X → InputOutcome × Desk X → Type 0
  SubmitsAll geometry event before (outcome, after) =
      (modal : EditModal X) (field : Field) (value : Value)
      → before.app.modal ≡ some modal
      → Asks geometry modal event field
      → Entered modal field value
      → before.received ≡ true
      → after.commands ≡ before.commands ++ write_value modal.keyref value ∷ []

  handle_event-SubmitsAll :
      (geometry : UiGeometry) (event : CrosstermEvent) (desk : Desk X)
      → SubmitsAll geometry event desk (handle_event geometry event desk)
  handle_event-SubmitsAll geometry event desk modal field value shown asks entered lives =
      ap (λ d. d.commands)
        (handle_event-Writes desk modal shown geometry event field value asks entered)
      ∙ queue_write_command-sent desk modal shown (write_value modal.keyref value) lives

  -- From a valid application an event gives the worker nothing; or the order to read all keys again,
  -- for the letter R while no modal is open; or a write for the key of the open modal, which the table
  -- lists as writable, of the value of the field that Enter submits while no value is being submitted,
  -- or of the button that is clicked, and the modal waits. When the worker is gone the modal shows it;
  -- when it is there, whatever value an event asks to submit is sent.
  pub handle_event-Sends :
      (geometry : UiGeometry) (event : CrosstermEvent) (desk : Desk X)
      → IsValid desk.app
      → SendsAfter geometry event desk (handle_event geometry event desk)
        × SubmitsAll geometry event desk (handle_event geometry event desk)
  handle_event-Sends geometry event desk valid = (
    Reaction-Sends desk _ (handle_event-Reaction geometry event desk) valid,
    handle_event-SubmitsAll geometry event desk,
  )
