-- ===== src/Tests/Monitor.antt =====
-- Runs of the monitor's screen and input (crates/qup-test-tui).
use qup.Prelude.{ℕ, ◌*◌, ◌^◌, ◌≡◌, refl, true, false, none, some, [], ◌∷◌, List, ok, err, arith}
use qup.Word.{pos, negsuc}
use qup.Wire.Scalar.{is_writable}
use qup.Client.Encode.{Value}
use qup.Client.Message.{KeyInfo}
use qup.Decimal.{
  show_i64, parse_i64, parse_u16, digits, push_digit, to_digit, magnitude, pos_overflow,
  invalid_digit,
}
use qup.Monitor.Geometry.{ModalFocus, Rect, UiGeometry}
use qup.Monitor.App.{
  KeyRow, EditModal, App, AppStatus, NetworkEvent, find_row, is_editable, open_modal_for_key,
  write_value,
}
use qup.Monitor.Desk.{KeyCode, MouseEventKind, CrosstermEvent, Desk}
use qup.Monitor.Input.{handle_event}
use qup.Monitor.Input.Valid.{IsValid}
use qup.Monitor.Input.Handled.{SendsAfter, SubmitsAll, handle_event-Sends}
use qup.Monitor.Input.Number.{press, press_all, press_all-show_i64}
use qup.Monitor.Screen.{Direction, Constraint}
use qup.Monitor.Main.{Round}
use qup.Monitor.Text.{format_value, format_last_read, minutes}

-- A readable and writable key with the name "x".
abbrev key_x : KeyInfo
key_x = record { keyref = 3; keyflags = 0b011; name = 0x78 ∷ [] }

abbrev row_x : KeyRow
row_x = record { info = key_x; value = show_i64 (negsuc 41); last_read = none }

shown_x : show_i64 (negsuc 41) ≡ b'-' ∷ b'4' ∷ b'2' ∷ []
unfolding show_i64 digits
shown_x = refl

parsed_low : parse_i64 (show_i64 (negsuc 9223372036854775807)) ≡ ok (negsuc 9223372036854775807)
unfolding show_i64 digits parse_i64 magnitude push_digit to_digit
parsed_low = refl

parsed_high : parse_i64 (show_i64 (pos 9223372036854775808)) ≡ err pos_overflow
unfolding show_i64 digits parse_i64 magnitude push_digit to_digit
parsed_high = refl

parsed_sign : parse_i64 (b'-' ∷ []) ≡ err invalid_digit
unfolding parse_i64
parsed_sign = refl

parsed_reference : parse_u16 (b'+' ∷ b'1' ∷ b'2' ∷ []) ≡ ok 12
unfolding parse_u16 magnitude push_digit to_digit
parsed_reference = refl

aged : format_last_read (some 0) (303 * 10 ^ 9) ≡ minutes 5
unfolding format_last_read
aged = refl

abbrev unplaced : UiGeometry
unplaced = record { table = none; modal = none }

abbrev app_x : App (Unit {0})
app_x = record {
  addr = [];
  retry_secs = 3;
  status = AppStatus.connected;
  node_id = none;
  keys = row_x ∷ [];
  modal = none;
}

abbrev desk_x : Desk (Unit {0})
desk_x = record { app = app_x; commands = []; received = true }

shown_value : row_x.value ≡ format_value (λ bytes. bytes) (Value.i64 (negsuc 41))
unfolding format_value
shown_value = refl

found_x : find_row (is_editable 3) (row_x ∷ []) ≡ some row_x
unfolding find_row is_writable
found_x = refl

press_all-show_i64_example :
    (press_all unplaced
      (KeyCode.tab ∷ KeyCode.enter ∷ [])
      (record desk_x { app = open_modal_for_key 3 app_x })).commands
    ≡ write_value 3 (Value.i64 (negsuc 41)) ∷ []
press_all-show_i64_example =
    press_all-show_i64 unplaced 3 row_x (negsuc 41) desk_x (λ bytes. bytes) (omega arith) found_x
      shown_value refl

-- The modal of the key, with "on" in its text field.
abbrev modal_x : EditModal (Unit {0})
modal_x = record {
  keyref = 3;
  key_name = 0x78 ∷ [];
  current_value = [];
  string_input = b'o' ∷ b'n' ∷ [];
  number_input = [];
  focus = ModalFocus.string_input;
  error = none;
  submitting = false;
}

abbrev desk_modal : Desk (Unit {0})
desk_modal = record desk_x { app = record app_x { modal = some modal_x } }

desk_modal-IsValid : IsValid desk_modal.app
unfolding is_writable
desk_modal-IsValid = record {
  of_key = record { index = 0; info = key_x; listed = refl; named = refl; writable = refl };
  numeric = tt;
  settled = λ h. cc;
}

handle_event-Sends_example :
    SendsAfter unplaced
      (press KeyCode.enter)
      desk_modal
      (handle_event unplaced (press KeyCode.enter) desk_modal)
    × SubmitsAll unplaced
        (press KeyCode.enter)
        desk_modal
        (handle_event unplaced (press KeyCode.enter) desk_modal)
handle_event-Sends_example =
    handle_event-Sends unplaced (press KeyCode.enter) desk_modal desk_modal-IsValid

-- A layout that gives every part the whole area.
abbrev whole : Direction → List Constraint → Rect → ℕ → Rect
whole direction constraints area index = area

abbrev same_rect : Rect → Rect
same_rect area = area

abbrev rect_of : ℕ → ℕ → ℕ → ℕ → Rect
rect_of x y width height = record { x = x; y = y; width = width; height = height }

-- The node connects and the pointer opens the modal of its key; then a letter is typed.
abbrev rounds_x : List (Round (Unit {0}))
rounds_x =
    record {
      updates = NetworkEvent.connected [] (row_x ∷ []) ∷ [];
      now = 5;
      frame_area = rect_of 0 0 80 24;
      event =
          some
            (CrosstermEvent.mouse record { kind = MouseEventKind.down_left; column = 2; row = 1 });
    }
    ∷ record {
      updates = [];
      now = 6;
      frame_area = rect_of 0 0 80 24;
      event = some (press (KeyCode.char b'a'));
    }
    ∷ []
