-- ===== src/Monitor/Input/Mouse.antt =====
-- What a terminal event of crates/qup-test-tui/src/app.rs can do, the mouse included.
use qup.Prelude.{ℕ, ◌≡◌, refl, Bool, true, false, Option, none, some}
use qup.Wire.Scalar.{is_writable}
use qup.Monitor.Geometry.{
  ModalFocus, ModalClickTarget, UiGeometry, ModalGeometry, TableGeometry, target_at,
}
use qup.Monitor.App.{KeyRow, EditModal}
use qup.Monitor.Desk.{
  MouseEvent, MouseEventKind, CrosstermEvent, redraw, Desk, with_modal, submit_string_modal,
  submit_bool_modal, submit_number_modal,
}
use qup.Monitor.Input.{
  focus_modal, click_target, click_modal, click_row, click_index, click_table, click,
  handle_mouse_event, handle_event,
}
use qup.Monitor.Input.Keyboard.{
  submit_string-Reaction, submit_bool-Reaction, submit_number-Reaction, handle_key_event-Reaction,
}
use qup.Monitor.Input.Reaction.{
  clicks, string_set, bool_true, bool_false, number_set, Reaction, ignores, redraws, closes, edits,
  focuses, opens, choose,
}

abbrev clicked : ℕ → ℕ → CrosstermEvent
clicked column row =
    CrosstermEvent.mouse (record { kind = MouseEventKind.down_left; column = column; row = row })

module _ {X : Type 0} (geometry : UiGeometry) where
  focus_modal-Reaction :
      {event : CrosstermEvent} (focus : ModalFocus) (modal : Option (EditModal X)) (desk : Desk X)
      → desk.app.modal ≡ modal
      → Reaction geometry event desk (redraw, with_modal (focus_modal focus modal) desk)
  focus_modal-Reaction focus none desk e = closes
  focus_modal-Reaction focus (some modal) desk e = edits modal _ e (focuses focus)

  module _ (place : ModalGeometry) (column row : ℕ) (placed : geometry.modal ≡ some place) where
    click_target-Reaction :
        (target : ModalClickTarget) (desk : Desk X)
        → target_at place column row ≡ some target
        → Reaction geometry (clicked column row) desk (redraw, click_target target desk)
    unfolding click_target submit_string_modal submit_bool_modal submit_number_modal
    click_target-Reaction ModalClickTarget.string_input desk at =
        focus_modal-Reaction ModalFocus.string_input desk.app.modal desk refl
    click_target-Reaction ModalClickTarget.string_set desk at =
        submit_string-Reaction desk.app.modal desk refl
          (λ m shown. clicks place column row _ _ placed at string_set)
    click_target-Reaction ModalClickTarget.bool_true desk at =
        submit_bool-Reaction true desk.app.modal desk refl
          (λ m shown. clicks place column row _ _ placed at bool_true)
    click_target-Reaction ModalClickTarget.bool_false desk at =
        submit_bool-Reaction false desk.app.modal desk refl
          (λ m shown. clicks place column row _ _ placed at bool_false)
    click_target-Reaction ModalClickTarget.number_input desk at =
        focus_modal-Reaction ModalFocus.number_input desk.app.modal desk refl
    click_target-Reaction ModalClickTarget.number_set desk at =
        submit_number-Reaction desk.app.modal desk refl
          (λ m shown. clicks place column row _ _ placed at number_set)

    click_modal-Reaction :
        (target : Option ModalClickTarget) (inside : Bool) (desk : Desk X)
        → target_at place column row ≡ target
        → Reaction geometry (clicked column row) desk (click_modal target inside desk)
    click_modal-Reaction (some target) inside desk at = click_target-Reaction target desk at
    click_modal-Reaction none true desk at = ignores
    click_modal-Reaction none false desk at = closes

  module _ {event : CrosstermEvent} where
    click_row-Reaction :
        (row : Option KeyRow) (desk : Desk X) → Reaction geometry event desk (click_row row desk)
    click_row-Reaction none desk = ignores
    click_row-Reaction (some row) desk =
        choose (is_writable row.info.keyflags) _ _ (opens row.info.keyref) ignores

    click_index-Reaction :
        (index : Option ℕ) (desk : Desk X) → Reaction geometry event desk (click_index index desk)
    click_index-Reaction none desk = ignores
    click_index-Reaction (some index) desk = click_row-Reaction _ desk

    click_table-Reaction :
        (table : Option TableGeometry) (mouse : MouseEvent) (desk : Desk X)
        → Reaction geometry event desk (click_table table mouse desk)
    click_table-Reaction none mouse desk = ignores
    click_table-Reaction (some table) mouse desk = click_index-Reaction _ desk

  click-Reaction :
      (modal : Option ModalGeometry) (table : Option TableGeometry) (column row : ℕ) (desk : Desk X)
      → geometry.modal ≡ modal
      → Reaction geometry (clicked column row) desk (
          click
            (record { table = table; modal = modal })
            (record { kind = MouseEventKind.down_left; column = column; row = row })
            desk)
  click-Reaction (some place) table column row desk placed =
      click_modal-Reaction place column row placed _ _ desk refl
  click-Reaction none table column row desk placed = click_table-Reaction table _ desk

  handle_mouse_event-Reaction :
      (kind : MouseEventKind) (column row : ℕ) (desk : Desk X)
      → Reaction geometry
          (CrosstermEvent.mouse (record { kind = kind; column = column; row = row }))
          desk
          (handle_mouse_event geometry (record { kind = kind; column = column; row = row }) desk)
  unfolding handle_mouse_event
  handle_mouse_event-Reaction MouseEventKind.down_left column row desk =
      click-Reaction geometry.modal geometry.table column row desk refl
  handle_mouse_event-Reaction MouseEventKind.other column row desk = ignores

  -- Every event has one of the reactions.
  pub handle_event-Reaction :
      (event : CrosstermEvent) (desk : Desk X)
      → Reaction geometry event desk (handle_event geometry event desk)
  unfolding handle_event
  handle_event-Reaction (CrosstermEvent.key event) desk =
      handle_key_event-Reaction geometry event.control event.code event.kind desk
  handle_event-Reaction (CrosstermEvent.mouse event) desk =
      handle_mouse_event-Reaction event.kind event.column event.row desk
  handle_event-Reaction CrosstermEvent.resize desk = redraws
  handle_event-Reaction CrosstermEvent.focus_gained desk = ignores
  handle_event-Reaction CrosstermEvent.focus_lost desk = ignores
  handle_event-Reaction CrosstermEvent.paste desk = ignores
