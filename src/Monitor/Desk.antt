-- ===== src/Monitor/Desk.antt =====
-- The terminal events of crates/qup-test-tui/src/app.rs, and how a value is submitted. Of crossterm's
-- events stands here what the handlers tell apart.
use qup.Prelude.{
  ℕ, Bool, true, false, Option, none, some, [], ◌∷◌, ◌++◌, List, Result, ok, err, if◌then◌else◌,
}
use qup.Word.{ℤ}
use qup.Client.Encode.{Value}
use qup.Decimal.{ParseIntError, parse_i64, trim, utf8_bytes}
use qup.Monitor.Geometry.{ModalFocus}
use qup.Monitor.App.{
  EditModal, App, WorkerCommand, write_value, invalid_number, connection_manager_stopped,
  mark_submitting, set_error,
}

pub data KeyCode : Type 0 where
  esc tab back_tab backspace enter other : KeyCode
  char : ℕ → KeyCode

pub data KeyEventKind : Type 0 where
  press repeat release : KeyEventKind

pub record KeyEvent : Type 0 where
  pub code : KeyCode
  -- `modifiers.contains(KeyModifiers::CONTROL)`
  pub control : Bool
  pub kind : KeyEventKind

pub data MouseEventKind : Type 0 where
  down_left other : MouseEventKind

pub record MouseEvent : Type 0 where
  pub kind : MouseEventKind
  pub column : ℕ
  pub row : ℕ

pub data CrosstermEvent : Type 0 where
  key : KeyEvent → CrosstermEvent
  mouse : MouseEvent → CrosstermEvent
  resize focus_gained focus_lost paste : CrosstermEvent

pub record InputOutcome : Type 0 where
  pub needs_redraw : Bool
  pub quit : Bool

-- InputOutcome::default(), and the two others that are returned.
abbrev pub ignored : InputOutcome
ignored = record { needs_redraw = false; quit = false }

abbrev pub redraw : InputOutcome
redraw = record { needs_redraw = true; quit = false }

abbrev pub leave : InputOutcome
leave = record { needs_redraw = false; quit = true }

-- The application and its end of Tokio's unbounded channel: the commands that were sent, and
-- whether the receiver is still there, without which a send fails.
pub record Desk (X : Type 0) : Type 0 where
  pub app : App X
  pub commands : List WorkerCommand
  pub received : Bool

module _ {X : Type 0} where
  abbrev pub with_modal : Option (EditModal X) → Desk X → Desk X
  with_modal modal desk = record desk { app = record desk.app { modal = modal } }

  -- `let _sent = command_tx.send(command);`
  unfoldable pub send_command : WorkerCommand → Desk X → Desk X
  send_command command desk = record desk {
    commands = if desk.received then desk.commands ++ command ∷ [] else desk.commands;
  }

  -- After the send the modal waits for an answer, or shows that there is no receiver.
  unfoldable pub queue_write_command : EditModal X → WorkerCommand → Desk X → Desk X
  unfolding send_command
  queue_write_command modal command desk =
      let marked = mark_submitting modal in
      let after = if desk.received then marked else set_error connection_manager_stopped marked in
      with_modal (some after) (send_command command desk)

  abbrev pub submit_string : Option (EditModal X) → Desk X → Desk X
  submit_string none desk = desk
  submit_string (some modal) desk =
      queue_write_command modal
        (write_value modal.keyref (Value.str (utf8_bytes modal.string_input))) desk

  unfoldable pub submit_string_modal : Desk X → Desk X
  unfolding queue_write_command
  submit_string_modal desk = submit_string desk.app.modal desk

  abbrev pub submit_bool : Bool → Option (EditModal X) → Desk X → Desk X
  submit_bool value none desk = desk
  submit_bool value (some modal) desk =
      queue_write_command modal (write_value modal.keyref (Value.bool value)) desk

  unfoldable pub submit_bool_modal : Bool → Desk X → Desk X
  unfolding queue_write_command
  submit_bool_modal value desk = submit_bool value desk.app.modal desk

  abbrev pub submit_parsed : EditModal X → Result ℤ ParseIntError → Desk X → Desk X
  submit_parsed modal (ok value) desk =
      queue_write_command modal (write_value modal.keyref (Value.i64 value)) desk
  submit_parsed modal (err error) desk =
      with_modal (some (set_error (invalid_number error) modal)) desk

  abbrev pub submit_number : Option (EditModal X) → Desk X → Desk X
  submit_number none desk = desk
  submit_number (some modal) desk = submit_parsed modal (parse_i64 (trim modal.number_input)) desk

  unfoldable pub submit_number_modal : Desk X → Desk X
  unfolding queue_write_command
  submit_number_modal desk = submit_number desk.app.modal desk

  -- `app.modal.as_ref().map(|modal| modal.focus)`
  abbrev pub focus_of : Option (EditModal X) → Option ModalFocus
  focus_of none = none
  focus_of (some modal) = some modal.focus

  abbrev pub submit_focus : Option ModalFocus → Desk X → Desk X
  submit_focus (some ModalFocus.string_input) desk = submit_string_modal desk
  submit_focus (some ModalFocus.number_input) desk = submit_number_modal desk
  submit_focus none desk = desk

  unfoldable pub submit_focused_modal_value : Desk X → Desk X
  unfolding submit_string_modal submit_number_modal
  submit_focused_modal_value desk = submit_focus (focus_of desk.app.modal) desk
