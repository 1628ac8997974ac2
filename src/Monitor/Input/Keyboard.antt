-- ===== src/Monitor/Input/Keyboard.antt =====
-- The reactions to the keyboard in crates/qup-test-tui/src/app.rs.
use qup.Prelude.{
  ℕ, ◌≡◌, refl, Bool, true, false, ◌||◌, Option, none, some, [], ◌∷◌, ◌++◌, Result, ok, err, ◌==◌,
  if◌then◌else◌, sym, ap, ◌∙◌, ◌⊎◌, arith,
}
use qup.Word.{ℤ}
use qup.Decimal.{ParseIntError, parse_i64, trim}
use qup.Decimal.Numeric.{IsNumeric, pop-IsNumeric, snoc-IsNumeric}
use qup.Monitor.Geometry.{ModalFocus, UiGeometry}
use qup.Monitor.App.{EditModal, refresh_all_readable}
use qup.Monitor.Desk.{
  KeyCode, KeyEventKind, CrosstermEvent, ignored, redraw, Desk, send_command, focus_of,
  submit_string_modal, submit_number_modal, submit_focused_modal_value, submit_string, submit_bool,
  submit_number, submit_parsed, submit_focus,
}
use qup.Monitor.Input.{
  is_number_char, is_interrupt, push_input, pop_input, edit_key, waiting_key, table_key,
  pressed_key, handle_modal_key_event, handle_key_event,
}
use qup.Monitor.Input.Reaction.{
  Field, Asks, enters_string, enters_number, letter, string, number, button, Edit, focuses,
  types_string, types_number, refuses, Reaction, ignores, leaves, redraws, refreshes, closes, edits,
  submits, choose,
}

abbrev pressed : KeyCode → Bool → CrosstermEvent
pressed code control =
    CrosstermEvent.key (record { code = code; control = control; kind = KeyEventKind.press })

is_letter :
    (character : ℕ)
    → ((character == b'r') || (character == b'R')) ≡ true
    → (character ≡ b'r') ⊎ (character ≡ b'R')
is_letter character h = ground arith

module _ {X : Type 0} where
  module _ {geometry : UiGeometry} {event : CrosstermEvent} where
    pub submit_string-Reaction :
        (modal : Option (EditModal X)) (desk : Desk X)
        → desk.app.modal ≡ modal
        → ((m : EditModal X) → modal ≡ some m → Asks geometry m event Field.string)
        → Reaction geometry event desk (redraw, submit_string modal desk)
    submit_string-Reaction none desk e asks = redraws
    submit_string-Reaction (some modal) desk e asks = submits modal _ _ e (asks modal refl) string

    pub submit_bool-Reaction :
        (value : Bool) (modal : Option (EditModal X)) (desk : Desk X)
        → desk.app.modal ≡ modal
        → ((m : EditModal X) → modal ≡ some m → Asks geometry m event (Field.button value))
        → Reaction geometry event desk (redraw, submit_bool value modal desk)
    submit_bool-Reaction value none desk e asks = redraws
    submit_bool-Reaction value (some modal) desk e asks =
        submits modal _ _ e (asks modal refl) (button value)

    submit_parsed-Reaction :
        (modal : EditModal X) (parsed : Result ℤ ParseIntError) (desk : Desk X)
        → desk.app.modal ≡ some modal
        → parse_i64 (trim modal.number_input) ≡ parsed
        → Asks geometry modal event Field.number
        → Reaction geometry event desk (redraw, submit_parsed modal parsed desk)
    submit_parsed-Reaction modal (ok value) desk e p asks =
        submits modal _ _ e asks (number value p)
    submit_parsed-Reaction modal (err error) desk e p asks = edits modal _ e (refuses error)

    pub submit_number-Reaction :
        (modal : Option (EditModal X)) (desk : Desk X)
        → desk.app.modal ≡ modal
        → ((m : EditModal X) → modal ≡ some m → Asks geometry m event Field.number)
        → Reaction geometry event desk (redraw, submit_number modal desk)
    submit_number-Reaction none desk e asks = redraws
    submit_number-Reaction (some modal) desk e asks =
        submit_parsed-Reaction modal _ desk e refl (asks modal refl)

  submit_focus-Reaction :
      (geometry : UiGeometry) (control : Bool) (focus : ModalFocus) (desk : Desk X)
      → ((m : EditModal X) → desk.app.modal ≡ some m → m.submitting ≡ false)
      → ((m : EditModal X) → desk.app.modal ≡ some m → m.focus ≡ focus)
      → Reaction geometry
          (pressed KeyCode.enter control)
          desk
          (redraw, submit_focus (some focus) desk)
  unfolding submit_string_modal submit_number_modal
  submit_focus-Reaction geometry control ModalFocus.string_input desk idle focused =
      submit_string-Reaction desk.app.modal desk refl
        (λ m shown. enters_string control (idle m shown) (focused m shown))
  submit_focus-Reaction geometry control ModalFocus.number_input desk idle focused =
      submit_number-Reaction desk.app.modal desk refl
        (λ m shown. enters_number control (idle m shown) (focused m shown))

  same_modal : {first second : EditModal X} → some first ≡ some second → first ≡ second
  same_modal h = cc

  enter-Reaction :
      (geometry : UiGeometry) (control : Bool) (modal : Option (EditModal X)) (desk : Desk X)
      → desk.app.modal ≡ modal
      → ((m : EditModal X) → desk.app.modal ≡ some m → m.submitting ≡ false)
      → Reaction geometry
          (pressed KeyCode.enter control)
          desk
          (redraw, submit_focus (focus_of modal) desk)
  enter-Reaction geometry control none desk e idle = redraws
  enter-Reaction geometry control (some modal) desk e idle =
      submit_focus-Reaction geometry control modal.focus desk idle
        (λ m shown. sym (ap (λ x. x.focus) (same_modal (sym e ∙ shown))))

  pop_input-Edit : (focus : ModalFocus) (modal : EditModal X) → Edit modal (pop_input focus modal)
  pop_input-Edit ModalFocus.string_input modal = types_string _
  pop_input-Edit ModalFocus.number_input modal = types_number _ (pop-IsNumeric modal.number_input)

  push_input-Edit :
      (focus : ModalFocus) (character : ℕ) (modal : EditModal X)
      → Edit modal (push_input focus character modal)
  push_input-Edit ModalFocus.string_input character modal = types_string _
  push_input-Edit ModalFocus.number_input character modal = types_number _ (kept _ refl)
    where
      kept :
          (test : Bool)
          → is_number_char character modal.number_input ≡ test
          → IsNumeric modal.number_input
          → IsNumeric (if test then modal.number_input ++ character ∷ [] else modal.number_input)
      kept true e h = snoc-IsNumeric modal.number_input character e h
      kept false e h = h

  module _ (geometry : UiGeometry) (control : Bool) where
    edit_key-Reaction :
        (code : KeyCode) (modal : EditModal X) (desk : Desk X)
        → desk.app.modal ≡ some modal
        → modal.submitting ≡ false
        → Reaction geometry (pressed code control) desk (edit_key code control modal desk)
    unfolding edit_key submit_focused_modal_value
    edit_key-Reaction KeyCode.esc modal desk e idle = closes
    edit_key-Reaction KeyCode.tab modal desk e idle = edits modal _ e (focuses _)
    edit_key-Reaction KeyCode.back_tab modal desk e idle = edits modal _ e (focuses _)
    edit_key-Reaction KeyCode.backspace modal desk e idle =
        edits modal _ e (pop_input-Edit modal.focus modal)
    edit_key-Reaction KeyCode.enter modal desk e idle =
        enter-Reaction geometry control desk.app.modal desk refl
          (λ m shown. sym (ap (λ x. x.submitting) (same_modal (sym e ∙ shown))) ∙ idle)
    edit_key-Reaction (KeyCode.char character) modal desk e idle =
        choose control _ _ ignores (edits modal _ e (push_input-Edit modal.focus character modal))
    edit_key-Reaction KeyCode.other modal desk e idle = ignores

    waiting_key-Reaction :
        (code : KeyCode) (desk : Desk X)
        → Reaction geometry (pressed code control) desk (waiting_key code desk)
    waiting_key-Reaction KeyCode.esc desk = closes
    waiting_key-Reaction KeyCode.tab desk = ignores
    waiting_key-Reaction KeyCode.back_tab desk = ignores
    waiting_key-Reaction KeyCode.backspace desk = ignores
    waiting_key-Reaction KeyCode.enter desk = ignores
    waiting_key-Reaction (KeyCode.char character) desk = ignores
    waiting_key-Reaction KeyCode.other desk = ignores

    table_key-Reaction :
        (code : KeyCode) (desk : Desk X)
        → desk.app.modal ≡ none
        → Reaction geometry (pressed code control) desk (table_key code desk)
    table_key-Reaction (KeyCode.char character) desk e =
        choose (character == b'q') _ _ leaves (go ((character == b'r') || (character == b'R')) refl)
      where
        go :
            (test : Bool)
            → ((character == b'r') || (character == b'R')) ≡ test
            → Reaction geometry
                (pressed (KeyCode.char character) control)
                desk
                (if test then (redraw, send_command refresh_all_readable desk) else (ignored, desk))
        go true h = refreshes e (letter character control (is_letter character h))
        go false h = ignores
    table_key-Reaction KeyCode.esc desk e = ignores
    table_key-Reaction KeyCode.tab desk e = ignores
    table_key-Reaction KeyCode.back_tab desk e = ignores
    table_key-Reaction KeyCode.backspace desk e = ignores
    table_key-Reaction KeyCode.enter desk e = ignores
    table_key-Reaction KeyCode.other desk e = ignores

    pressed_key-Reaction :
        (modal : Option (EditModal X)) (code : KeyCode) (desk : Desk X)
        → desk.app.modal ≡ modal
        → Reaction geometry (pressed code control) desk (
            pressed_key modal
              (record { code = code; control = control; kind = KeyEventKind.press })
              desk)
    unfolding handle_modal_key_event
    pressed_key-Reaction none code desk e = table_key-Reaction code desk e
    pressed_key-Reaction (some modal) code desk e = go modal.submitting refl
      where
        go :
            (test : Bool)
            → modal.submitting ≡ test
            → Reaction geometry
                (pressed code control)
                desk
                (if test then waiting_key code desk else edit_key code control modal desk)
        go true h = waiting_key-Reaction code desk
        go false h = edit_key-Reaction code modal desk e h

    pub handle_key_event-Reaction :
        (code : KeyCode) (kind : KeyEventKind) (desk : Desk X)
        → Reaction geometry
            (CrosstermEvent.key (record { code = code; control = control; kind = kind }))
            desk
            (handle_key_event (record { code = code; control = control; kind = kind }) desk)
    unfolding handle_key_event
    handle_key_event-Reaction code KeyEventKind.press desk =
        choose (is_interrupt code control) _ _ leaves
          (pressed_key-Reaction desk.app.modal code desk refl)
    handle_key_event-Reaction code KeyEventKind.repeat desk = ignores
    handle_key_event-Reaction code KeyEventKind.release desk = ignores
