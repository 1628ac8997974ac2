-- ===== src/Monitor/Input.antt =====
-- The handlers of crates/qup-test-tui/src/app.rs: what the keys and the mouse do to the state and
-- which commands they give to the connection's worker.
pub mod Submitted
pub mod Reaction
pub mod Keyboard
pub mod Number
pub mod Mouse
pub mod Valid
pub mod Handled
use qup.Prelude.{
  ℕ, Bool, true, false, not, ◌&&◌, ◌||◌, Option, none, some, [], ◌∷◌, ◌++◌, List, Result, ok, err,
  get_elem?, is_empty, length, within, ◌==◌, if◌then◌else◌,
}
use qup.Wire.Scalar.{is_writable}
use qup.Word.{ℤ}
use qup.Client.Encode.{Value}
use qup.Decimal.{Text, ParseIntError, parse_i64, trim, pop, utf8_bytes}
use qup.Monitor.Geometry.{
  ModalFocus, toggle, row_at, ModalGeometry, ModalClickTarget, target_at, modal_contains,
  UiGeometry, TableGeometry,
}
use qup.Monitor.App.{
  KeyRow, EditModal, App, WorkerCommand, refresh_all_readable, write_value, invalid_number,
  connection_manager_stopped, mark_submitting, set_error, open_modal_for_key,
}
use qup.Monitor.Desk.{
  KeyCode, KeyEventKind, KeyEvent, MouseEventKind, MouseEvent, CrosstermEvent, InputOutcome,
  ignored, redraw, leave, Desk, with_modal, send_command, submit_string_modal, submit_bool_modal,
  submit_number_modal, submit_focused_modal_value,
}

-- A digit, or the minus sign at the start.
abbrev pub is_number_char : ℕ → Text → Bool
is_number_char character input =
    within b'0' b'9' character || ((character == b'-') && is_empty input)

abbrev pub is_interrupt : KeyCode → Bool → Bool
is_interrupt (KeyCode.char character) control = control && (character == b'c')
is_interrupt _ control = false

module _ {X : Type 0} where
  abbrev pub pop_input : ModalFocus → EditModal X → EditModal X
  pop_input ModalFocus.string_input modal = record modal { string_input = pop modal.string_input }
  pop_input ModalFocus.number_input modal = record modal { number_input = pop modal.number_input }

  abbrev pub push_input : ModalFocus → ℕ → EditModal X → EditModal X
  push_input ModalFocus.string_input character modal = record modal {
    string_input = modal.string_input ++ character ∷ [];
  }
  push_input ModalFocus.number_input character modal = record modal {
    number_input =
        if is_number_char character modal.number_input
        then modal.number_input ++ character ∷ []
        else modal.number_input;
  }

  -- The `match` on the key, for a modal that is not submitting.
  unfoldable pub edit_key : KeyCode → Bool → EditModal X → Desk X → InputOutcome × Desk X
  unfolding submit_focused_modal_value
  edit_key KeyCode.esc control modal desk = (redraw, with_modal none desk)
  edit_key KeyCode.tab control modal desk =
      (redraw, with_modal (some (record modal { focus = toggle modal.focus })) desk)
  edit_key KeyCode.back_tab control modal desk =
      (redraw, with_modal (some (record modal { focus = toggle modal.focus })) desk)
  edit_key KeyCode.backspace control modal desk =
      (redraw, with_modal (some (pop_input modal.focus modal)) desk)
  edit_key KeyCode.enter control modal desk = (redraw, submit_focused_modal_value desk)
  edit_key (KeyCode.char character) control modal desk =
      if control
      then (ignored, desk)
      else (redraw, with_modal (some (push_input modal.focus character modal)) desk)
  edit_key KeyCode.other control modal desk = (ignored, desk)

  -- While a value is submitted the keyboard can only close the modal.
  abbrev pub waiting_key : KeyCode → Desk X → InputOutcome × Desk X
  waiting_key KeyCode.esc desk = (redraw, with_modal none desk)
  waiting_key _ desk = (ignored, desk)

  unfoldable pub handle_modal_key_event : KeyEvent → EditModal X → Desk X → InputOutcome × Desk X
  unfolding edit_key
  handle_modal_key_event event modal desk =
      if modal.submitting
      then waiting_key event.code desk
      else edit_key event.code event.control modal desk

  abbrev pub table_key : KeyCode → Desk X → InputOutcome × Desk X
  table_key (KeyCode.char character) desk =
      if character == b'q'
      then (leave, desk)
      else if (character == b'r') || (character == b'R')
      then (redraw, send_command refresh_all_readable desk)
      else (ignored, desk)
  table_key _ desk = (ignored, desk)

  abbrev pub pressed_key : Option (EditModal X) → KeyEvent → Desk X → InputOutcome × Desk X
  pressed_key (some modal) event desk = handle_modal_key_event event modal desk
  pressed_key none event desk = table_key event.code desk

  unfoldable pub handle_key_event : KeyEvent → Desk X → InputOutcome × Desk X
  unfolding handle_modal_key_event send_command
  handle_key_event event desk = elim event.kind [
    | KeyEventKind.press ↦
        if is_interrupt event.code event.control
        then (leave, desk)
        else pressed_key desk.app.modal event desk
    | _ ↦ (ignored, desk)
  ]

  abbrev pub focus_modal : ModalFocus → Option (EditModal X) → Option (EditModal X)
  focus_modal focus none = none
  focus_modal focus (some modal) = some (record modal { focus = focus })

  -- The `match target`.
  unfoldable pub click_target : ModalClickTarget → Desk X → Desk X
  unfolding submit_string_modal submit_bool_modal submit_number_modal
  click_target ModalClickTarget.string_input desk =
      with_modal (focus_modal ModalFocus.string_input desk.app.modal) desk
  click_target ModalClickTarget.string_set desk = submit_string_modal desk
  click_target ModalClickTarget.bool_true desk = submit_bool_modal true desk
  click_target ModalClickTarget.bool_false desk = submit_bool_modal false desk
  click_target ModalClickTarget.number_input desk =
      with_modal (focus_modal ModalFocus.number_input desk.app.modal) desk
  click_target ModalClickTarget.number_set desk = submit_number_modal desk

  abbrev pub click_modal : Option ModalClickTarget → Bool → Desk X → InputOutcome × Desk X
  click_modal (some target) inside desk = (redraw, click_target target desk)
  click_modal none false desk = (redraw, with_modal none desk)
  click_modal none true desk = (ignored, desk)

  abbrev pub click_row : Option KeyRow → Desk X → InputOutcome × Desk X
  click_row none desk = (ignored, desk)
  click_row (some row) desk =
      if is_writable row.info.keyflags
      then (redraw, record desk { app = open_modal_for_key row.info.keyref desk.app })
      else (ignored, desk)

  abbrev pub click_index : Option ℕ → Desk X → InputOutcome × Desk X
  click_index none desk = (ignored, desk)
  click_index (some row_index) desk = click_row (get_elem? desk.app.keys row_index) desk

  abbrev pub click_table : Option TableGeometry → MouseEvent → Desk X → InputOutcome × Desk X
  click_table none event desk = (ignored, desk)
  click_table (some geometry) event desk =
      click_index (row_at geometry event.column event.row (length desk.app.keys)) desk

  abbrev pub click : UiGeometry → MouseEvent → Desk X → InputOutcome × Desk X
  click geometry event desk = elim geometry.modal [
    | some modal_geometry ↦
        click_modal (target_at modal_geometry event.column event.row)
          (modal_contains modal_geometry event.column event.row) desk
    | none ↦ click_table geometry.table event desk
  ]

  unfoldable pub handle_mouse_event : UiGeometry → MouseEvent → Desk X → InputOutcome × Desk X
  unfolding click_target target_at row_at open_modal_for_key
  handle_mouse_event geometry event desk = elim event.kind [
    | MouseEventKind.down_left ↦ click geometry event desk
    | MouseEventKind.other ↦ (ignored, desk)
  ]

  unfoldable pub handle_event : UiGeometry → CrosstermEvent → Desk X → InputOutcome × Desk X
  unfolding handle_key_event handle_mouse_event
  handle_event geometry (CrosstermEvent.key event) desk = handle_key_event event desk
  handle_event geometry (CrosstermEvent.mouse event) desk = handle_mouse_event geometry event desk
  handle_event geometry CrosstermEvent.resize desk = (redraw, desk)
  handle_event geometry CrosstermEvent.focus_gained desk = (ignored, desk)
  handle_event geometry CrosstermEvent.focus_lost desk = (ignored, desk)
  handle_event geometry CrosstermEvent.paste desk = (ignored, desk)
