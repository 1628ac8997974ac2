-- ===== src/Monitor/Screen.antt =====
-- Where crates/qup-test-tui/src/ui.rs places the table and the modal, and what it writes into the
-- modal's footer. Of ratatui stand here, as parameters, `Rect::inner` with a margin of one,
-- `Rect::new`, and the rectangle with an index of those that a `Layout` splits an area into.
use qup.Prelude.{ℕ, ◌-◌, Bool, Option, none, some, [], ◌∷◌, List, min, max, if◌then◌else◌}
use qup.Monitor.Geometry.{Rect, ModalGeometry, UiGeometry, build_table_geometry}
use qup.Monitor.App.{EditModal, App, ModalError}

pub data Direction : Type 0 where
  vertical horizontal : Direction

pub data Constraint : Type 0 where
  length at_least fill : ℕ → Constraint

-- The colours and the modifier that the borders and the texts are given.
pub data Style : Type 0 where
  default dark_gray yellow cyan red bold : Style

abbrev pub input_border_style : Bool → Bool → Style
input_border_style focused disabled =
    if disabled then dark_gray else if focused then yellow else default

abbrev pub button_border_style : Style
button_border_style = cyan

abbrev pub button_text_style : Bool → Style
button_text_style disabled = if disabled then dark_gray else bold

pub data FooterText (X : Type 0) : Type 0 where
  error : ModalError X → FooterText X
  writing hint : FooterText X

abbrev pub footer_text : {X : Type 0} → EditModal X → FooterText X
footer_text modal = elim modal.error [
  | some message ↦ error message
  | none ↦ if modal.submitting then writing else hint
]

abbrev pub footer_style : {X : Type 0} → EditModal X → Style
footer_style modal = elim modal.error [ some message ↦ red | none ↦ default ]

module _ (inner : Rect → Rect) (new_rect : ℕ → ℕ → ℕ → ℕ → Rect)
    (split : Direction → List Constraint → Rect → ℕ → Rect) where
  unfoldable pub centered_rect : Rect → ℕ → ℕ → Rect
  centered_rect area desired_width desired_height =
      let width = max (min desired_width (area.width - 2)) 20 in
      let height = max (min desired_height (area.height - 2)) 8 in
      let middle = split horizontal (fill 1 ∷ length width ∷ fill 1 ∷ []) area 1 in
      split vertical (fill 1 ∷ length height ∷ fill 1 ∷ []) middle 1

  abbrev pub modal_sections : Rect → ℕ → Rect
  modal_sections outer =
      split vertical (length 1 ∷ length 3 ∷ length 3 ∷ length 3 ∷ at_least 2 ∷ []) (inner outer)

  abbrev pub input_row : Rect → ℕ → Rect
  input_row section = split horizontal (at_least 1 ∷ length 10 ∷ []) section

  abbrev pub bool_row : Rect → ℕ → Rect
  bool_row section = split horizontal (length 12 ∷ length 12 ∷ at_least 1 ∷ []) section

  -- The rectangles that `draw_modal` returns.
  unfoldable pub modal_geometry : Rect → ModalGeometry
  unfolding centered_rect
  modal_geometry frame_area =
      let outer = centered_rect frame_area 72 15 in
      record {
        outer = outer;
        string_input = input_row (modal_sections outer 1) 0;
        string_set_button = input_row (modal_sections outer 1) 1;
        bool_true_button = bool_row (modal_sections outer 2) 0;
        bool_false_button = bool_row (modal_sections outer 2) 1;
        number_input = input_row (modal_sections outer 3) 0;
        number_set_button = input_row (modal_sections outer 3) 1;
      }

  abbrev pub shown_modal : {X : Type 0} → Rect → Option (EditModal X) → Option ModalGeometry
  shown_modal frame_area none = none
  shown_modal frame_area (some modal) = some (modal_geometry frame_area)

  -- The geometry that `draw` leaves behind.
  unfoldable pub draw_geometry : {X : Type 0} → Rect → App X → UiGeometry
  unfolding build_table_geometry modal_geometry
  draw_geometry frame_area app = record {
    table =
        build_table_geometry inner new_rect
          (split vertical (length 3 ∷ at_least 1 ∷ []) frame_area 1);
    modal = shown_modal frame_area app.modal;
  }
