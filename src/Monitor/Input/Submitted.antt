-- ===== src/Monitor/Input/Submitted.antt =====
-- What is submitted in crates/qup-test-tui/src/app.rs when an event asks for it.
use qup.Prelude.{◌≡◌, refl, ap, ◌∙◌, Bool, true, false, some, [], ◌∷◌, ◌++◌, if◌then◌else◌}
use qup.Client.Encode.{Value}
use qup.Monitor.Geometry.{ModalFocus, ModalClickTarget, UiGeometry, modal_contains}
use qup.Monitor.App.{EditModal, WorkerCommand, write_value}
use qup.Monitor.Desk.{
  KeyCode, KeyEventKind, KeyEvent, MouseEventKind, CrosstermEvent, InputOutcome, redraw, Desk,
  queue_write_command, send_command, submit_string_modal, submit_bool_modal, submit_number_modal,
  submit_focused_modal_value, submit_string, submit_bool, submit_number, submit_parsed,
  submit_focus, focus_of,
}
use qup.Monitor.Input.{
  edit_key, waiting_key, handle_modal_key_event, handle_key_event, pressed_key, click_target,
  click_modal, click, handle_mouse_event, handle_event,
}
use qup.Monitor.Input.Reaction.{
  Field, IsButton, Entered, Asks, enters_string, enters_number, clicks,
}

module _ {X : Type 0} (desk : Desk X) (modal : EditModal X)
    (shown : desk.app.modal ≡ some modal) where
  abbrev Writes : Value → InputOutcome × Desk X → Type 0
  Writes value (outcome, after) =
      after ≡ queue_write_command modal (write_value modal.keyref value) desk

  submit_string-Writes :
      (value : Value)
      → Entered modal Field.string value
      → Writes value (redraw, submit_string_modal desk)
  unfolding submit_string_modal
  submit_string-Writes _ Entered.string = ap (λ m. submit_string m desk) shown

  submit_bool-Writes :
      (pushed : Bool) (value : Value)
      → Entered modal (Field.button pushed) value
      → Writes value (redraw, submit_bool_modal pushed desk)
  unfolding submit_bool_modal
  submit_bool-Writes pushed _ (Entered.button _) = ap (λ m. submit_bool pushed m desk) shown

  submit_number-Writes :
      (value : Value)
      → Entered modal Field.number value
      → Writes value (redraw, submit_number_modal desk)
  unfolding submit_number_modal
  submit_number-Writes _ (Entered.number value parsed) =
      ap (λ m. submit_number m desk) shown ∙ ap (λ p. submit_parsed modal p desk) parsed

  click_target-Writes :
      (target : ModalClickTarget) (field : Field) (value : Value)
      → IsButton target field
      → Entered modal field value
      → Writes value (redraw, click_target target desk)
  unfolding click_target
  click_target-Writes _ _ value IsButton.string_set e = submit_string-Writes value e
  click_target-Writes _ _ value IsButton.bool_true e = submit_bool-Writes true value e
  click_target-Writes _ _ value IsButton.bool_false e = submit_bool-Writes false value e
  click_target-Writes _ _ value IsButton.number_set e = submit_number-Writes value e

  enter-Writes :
      (control : Bool) (focus : ModalFocus) (value : Value)
      → modal.submitting ≡ false
      → modal.focus ≡ focus
      → Writes value (redraw, submit_focus (some focus) desk)
      → Writes value (
          handle_key_event
            (record { code = KeyCode.enter; control = control; kind = KeyEventKind.press })
            desk)
  unfolding handle_key_event handle_modal_key_event edit_key submit_focused_modal_value
  enter-Writes control focus value idle focused h =
      let event : KeyEvent = record {
        code = KeyCode.enter;
        control = control;
        kind = KeyEventKind.press;
      } in
      ap (λ m. (pressed_key m event desk).1) shown
      ∙ ap
          (λ b.
            (if b
              then waiting_key KeyCode.enter desk
              else edit_key KeyCode.enter control modal desk).1)
          idle
      ∙ ap (λ m. submit_focus (focus_of m) desk) shown
      ∙ ap (λ f. submit_focus (some f) desk) focused
      ∙ h

  -- The value that an event asks to submit is queued.
  pub handle_event-Writes :
      (geometry : UiGeometry) (event : CrosstermEvent) (field : Field) (value : Value)
      → Asks geometry modal event field
      → Entered modal field value
      → Writes value (handle_event geometry event desk)
  unfolding handle_event handle_mouse_event submit_string_modal submit_number_modal
  handle_event-Writes geometry _ _ value (enters_string control idle focused) e =
      enter-Writes control ModalFocus.string_input value idle focused (submit_string-Writes value e)
  handle_event-Writes geometry _ _ value (enters_number control idle focused) e =
      enter-Writes control ModalFocus.number_input value idle focused (submit_number-Writes value e)
  handle_event-Writes geometry _ _ value (clicks place column row target field placed at button) e =
      ap
        (λ g.
          (click (record { table = geometry.table; modal = g })
            (record { kind = MouseEventKind.down_left; column = column; row = row }) desk).1)
        placed
      ∙ ap (λ t. (click_modal t (modal_contains place column row) desk).1) at
      ∙ click_target-Writes target field value button e

  pub queue_write_command-sent :
      (command : WorkerCommand)
      → desk.received ≡ true
      → (queue_write_command modal command desk).commands ≡ desk.commands ++ command ∷ []
  unfolding queue_write_command send_command
  queue_write_command-sent command lives = rw lives refl
