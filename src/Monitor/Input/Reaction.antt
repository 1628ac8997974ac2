-- ===== src/Monitor/Input/Reaction.antt =====
-- Everything that a key can do to the state of crates/qup-test-tui/src/app.rs, as a data type.
use qup.Prelude.{ℕ, ◌≡◌, Bool, true, false, none, some, ok, if◌then◌else◌, ◌⊎◌}
use qup.Word.{ℤ}
use qup.Client.Encode.{Value}
use qup.Decimal.{Text, ParseIntError, parse_i64, trim, utf8_bytes}
use qup.Decimal.Numeric.{IsNumeric}
use qup.Monitor.Geometry.{ModalFocus, ModalClickTarget, ModalGeometry, UiGeometry, target_at}
use qup.Monitor.App.{
  EditModal, invalid_number, refresh_all_readable, write_value, set_error, open_modal_for_key,
}
use qup.Monitor.Desk.{
  KeyCode, KeyEventKind, MouseEventKind, CrosstermEvent, InputOutcome, ignored, redraw, leave, Desk,
  with_modal, queue_write_command, send_command,
}

-- The fields and buttons of a modal that hold a value.
pub data Field : Type 0 where
  string number : Field
  button : Bool → Field

-- The buttons that submit.
pub data IsButton : ModalClickTarget → Field → Type 0 where
  string_set : IsButton ModalClickTarget.string_set Field.string
  bool_true : IsButton ModalClickTarget.bool_true (Field.button true)
  bool_false : IsButton ModalClickTarget.bool_false (Field.button false)
  number_set : IsButton ModalClickTarget.number_set Field.number

-- The letter for a new read of all keys is pressed.
pub data IsRefresh : CrosstermEvent → Type 0 where
  letter :
      (character : ℕ) (control : Bool)
      → (character ≡ b'r') ⊎ (character ≡ b'R')
      → IsRefresh (
          CrosstermEvent.key (record {
            code = KeyCode.char character;
            control = control;
            kind = KeyEventKind.press;
          }))

module _ {X : Type 0} where
  -- A change of the modal's fields: the number field stays a number.
  pub data Edit (modal : EditModal X) : EditModal X → Type 0 where
    focuses : (focus : ModalFocus) → Edit modal (record modal { focus = focus })
    types_string : (text : Text) → Edit modal (record modal { string_input = text })
    types_number :
        (text : Text)
        → (IsNumeric modal.number_input → IsNumeric text)
        → Edit modal (record modal { number_input = text })
    refuses : (error : ParseIntError) → Edit modal (set_error (invalid_number error) modal)

  -- The value that a field or button of the modal stands for.
  pub data Entered (modal : EditModal X) : Field → Value → Type 0 where
    string : Entered modal Field.string (Value.str (utf8_bytes modal.string_input))
    button : (value : Bool) → Entered modal (Field.button value) (Value.bool value)
    number :
        (value : ℤ)
        → parse_i64 (trim modal.number_input) ≡ ok value
        → Entered modal Field.number (Value.i64 value)

  -- The event asks to submit a field or button of the modal: Enter does for the field that has the
  -- focus, unless a value is being submitted already, and a click does on the button of the field.
  pub data Asks (geometry : UiGeometry) (modal : EditModal X)
      : CrosstermEvent → Field → Type 0 where
    enters_string :
        (control : Bool)
        → modal.submitting ≡ false
        → modal.focus ≡ ModalFocus.string_input
        → Asks geometry modal
            (CrosstermEvent.key
              (record { code = KeyCode.enter; control = control; kind = KeyEventKind.press }))
            Field.string
    enters_number :
        (control : Bool)
        → modal.submitting ≡ false
        → modal.focus ≡ ModalFocus.number_input
        → Asks geometry modal
            (CrosstermEvent.key
              (record { code = KeyCode.enter; control = control; kind = KeyEventKind.press }))
            Field.number
    clicks :
        (place : ModalGeometry) (column row : ℕ) (target : ModalClickTarget) (field : Field)
        → geometry.modal ≡ some place
        → target_at place column row ≡ some target
        → IsButton target field
        → Asks geometry modal
            (CrosstermEvent.mouse
              (record { kind = MouseEventKind.down_left; column = column; row = row }))
            field

  -- The reactions to an event.
  pub data Reaction (geometry : UiGeometry) (event : CrosstermEvent) (desk : Desk X)
      : InputOutcome × Desk X → Type 0 where
    ignores : Reaction geometry event desk (ignored, desk)
    leaves : Reaction geometry event desk (leave, desk)
    redraws : Reaction geometry event desk (redraw, desk)
    refreshes :
        desk.app.modal ≡ none
        → IsRefresh event
        → Reaction geometry event desk (redraw, send_command refresh_all_readable desk)
    closes : Reaction geometry event desk (redraw, with_modal none desk)
    edits :
        (modal changed : EditModal X)
        → desk.app.modal ≡ some modal
        → Edit modal changed
        → Reaction geometry event desk (redraw, with_modal (some changed) desk)
    submits :
        (modal : EditModal X) (field : Field) (value : Value)
        → desk.app.modal ≡ some modal
        → Asks geometry modal event field
        → Entered modal field value
        → Reaction geometry event desk
            (redraw, queue_write_command modal (write_value modal.keyref value) desk)
    opens :
        (keyref : ℕ)
        → Reaction geometry event desk
            (redraw, record desk { app = open_modal_for_key keyref desk.app })

  pub choose :
      {geometry : UiGeometry} {event : CrosstermEvent} {desk : Desk X} (test : Bool)
      (first second : InputOutcome × Desk X)
      → Reaction geometry event desk first
      → Reaction geometry event desk second
      → Reaction geometry event desk (if test then first else second)
  choose true first second h k = h
  choose false first second h k = k
