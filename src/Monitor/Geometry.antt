-- ===== src/Monitor/Geometry.antt =====
-- The geometry of crates/qup-test-tui/src/ui.rs: where a pointer stands. Coordinates are `u16`.
use qup.Prelude.{
  ℕ, ◌+◌, ◌-◌, ◌^◌, ◌≤◌, ◌<◌, ◌≡◌, ◌↔◌, Bool, true, ◌&&◌, Option, none, some, ◌==◌, ltb, leb, min,
  if◌then◌else◌, arith,
}

pub data ModalFocus : Type 0 where
  string_input number_input : ModalFocus

-- ModalFocus::toggle
abbrev pub toggle : ModalFocus → ModalFocus
toggle ModalFocus.string_input = ModalFocus.number_input
toggle ModalFocus.number_input = ModalFocus.string_input

-- ratatui's `Rect`, as far as its public fields go.
pub record Rect : Type 0 where
  pub x : ℕ
  pub y : ℕ
  pub width : ℕ
  pub height : ℕ

-- u16::saturating_add
abbrev pub saturating_add : ℕ → ℕ → ℕ
saturating_add a b = min (a + b) (2 ^ 16 - 1)

unfoldable pub contains_point : Rect → ℕ → ℕ → Bool
contains_point rect column row =
    leb rect.x column
    && ltb column (saturating_add rect.x rect.width)
    && leb rect.y row
    && ltb row (saturating_add rect.y rect.height)

pub record TableGeometry : Type 0 where
  pub body : Rect
  pub visible_rows : ℕ

-- TableGeometry::row_at
unfoldable pub row_at : TableGeometry → ℕ → ℕ → ℕ → Option ℕ
unfolding contains_point
row_at geometry column row total_rows =
    let row_index = row - geometry.body.y in
    let visible_rows = min geometry.visible_rows total_rows in
    if contains_point geometry.body column row
    then if ltb row_index visible_rows then some row_index else none
    else none

pub record ModalGeometry : Type 0 where
  pub outer : Rect
  pub string_input : Rect
  pub string_set_button : Rect
  pub bool_true_button : Rect
  pub bool_false_button : Rect
  pub number_input : Rect
  pub number_set_button : Rect

pub data ModalClickTarget : Type 0 where
  string_input string_set bool_true bool_false number_input number_set : ModalClickTarget

-- ModalGeometry::target_at
unfoldable pub target_at : ModalGeometry → ℕ → ℕ → Option ModalClickTarget
unfolding contains_point
target_at geometry column row =
    if contains_point geometry.string_input column row
    then some ModalClickTarget.string_input
    else if contains_point geometry.string_set_button column row
    then some ModalClickTarget.string_set
    else if contains_point geometry.bool_true_button column row
    then some ModalClickTarget.bool_true
    else if contains_point geometry.bool_false_button column row
    then some ModalClickTarget.bool_false
    else if contains_point geometry.number_input column row
    then some ModalClickTarget.number_input
    else if contains_point geometry.number_set_button column row
    then some ModalClickTarget.number_set
    else none

-- ModalGeometry::contains
abbrev pub modal_contains : ModalGeometry → ℕ → ℕ → Bool
modal_contains geometry column row = contains_point geometry.outer column row

pub record UiGeometry : Type 0 where
  pub table : Option TableGeometry
  pub modal : Option ModalGeometry

-- What the layout takes from ratatui: `Rect::inner` with a margin of one on each side, and
-- `Rect::new`.
module _ (inner : Rect → Rect) (new_rect : ℕ → ℕ → ℕ → ℕ → Rect) where
  unfoldable pub build_table_geometry : Rect → Option TableGeometry
  build_table_geometry table_area =
      let area = inner table_area in
      let body_height = area.height - 1 in
      if body_height == 0
      then none
      else some record {
        body = new_rect area.x (saturating_add area.y 1) area.width body_height;
        visible_rows = body_height;
      }

-- A point within the rectangle, whose right and lower edges are out of it and end at the largest
-- coordinate.
abbrev pub IsInside : Rect → ℕ → ℕ → Type 0
IsInside rect column row =
    (rect.x ≤ column)
    × (column < saturating_add rect.x rect.width)
    × (rect.y ≤ row)
    × (row < saturating_add rect.y rect.height)

pub contains_point-IsInside :
    (rect : Rect) (column row : ℕ)
    → (contains_point rect column row ≡ true) ↔ IsInside rect column row
unfolding contains_point
contains_point-IsInside rect column row = ground arith

-- `row_at` picks an index exactly when the pointer is inside the table's body, that many rows below
-- its upper edge, and the row is one of the visible ones and there is a key for it.
pub row_at-Picks :
    (geometry : TableGeometry) (column row total_rows index : ℕ)
    → (row_at geometry column row total_rows ≡ some index) ↔ (
        IsInside geometry.body column row
        × (geometry.body.y + index ≡ row)
        × (index < geometry.visible_rows)
        × (index < total_rows))
unfolding row_at contains_point
row_at-Picks geometry column row total_rows index = ground arith
