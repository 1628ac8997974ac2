-- ===== src/Monitor/Input/Number.antt =====
-- The edit of an integer in the modal of crates/qup-test-tui/src/app.rs.
use qup.Prelude.{ℕ, ◌≡◌, refl, true, false, some, [], ◌∷◌, ◌++◌, List, Bytes}
use qup.Word.{ℤ, IsI64}
use qup.Client.Encode.{Value}
use qup.Decimal.{Text}
use qup.Decimal.RoundTrip.{parse_i64-show_i64, trim_dark, show_i64-IsDark}
use qup.Monitor.Geometry.{UiGeometry}
use qup.Monitor.Text.{format_value}
use qup.Monitor.App.{KeyRow, find_row, is_editable, from_row, open_modal_for_key, write_value}
use qup.Monitor.Desk.{
  KeyCode, KeyEventKind, CrosstermEvent, Desk, submit_focused_modal_value, submit_number_modal,
  queue_write_command, send_command,
}
use qup.Monitor.Input.{handle_event, handle_key_event, handle_modal_key_event, edit_key}

abbrev pub press : KeyCode → CrosstermEvent
press code = CrosstermEvent.key (record { code = code; control = false; kind = KeyEventKind.press })

module _ {X : Type 0} where
  -- The keys pressed one after the other, wherever the pointer stands.
  unfoldable pub press_all : UiGeometry → List KeyCode → Desk X → Desk X
  unfolding handle_event
  press_all geometry [] desk = desk
  press_all geometry (code ∷ codes) desk =
      press_all geometry codes (handle_event geometry (press code) desk).1

  -- Where a table row shows an `i64`, opening its modal, moving to the number field and pressing Enter
  -- asks the worker to write that very value to the key.
  pub press_all-show_i64 :
      (geometry : UiGeometry) (keyref : ℕ) (row : KeyRow) (value : ℤ) (desk : Desk X)
      (escape_debug : Bytes → Text)
      → IsI64 value
      → find_row (is_editable keyref) desk.app.keys ≡ some row
      → row.value ≡ format_value escape_debug (Value.i64 value)
      → desk.received ≡ true
      → (press_all geometry
          (KeyCode.tab ∷ KeyCode.enter ∷ [])
          (record desk { app = open_modal_for_key keyref desk.app })).commands
        ≡ desk.commands ++ write_value row.info.keyref (Value.i64 value) ∷ []
  unfolding press_all handle_event handle_key_event handle_modal_key_event edit_key
      submit_focused_modal_value submit_number_modal queue_write_command send_command
      open_modal_for_key from_row format_value
  press_all-show_i64 geometry keyref row value desk escape_debug small found shown alive =
      rw
        (
          found,
          shown,
          parse_i64-show_i64 value small,
          trim_dark _ (show_i64-IsDark value small),
          parse_i64-show_i64 value small,
          alive,
        )
        refl
