-- ===== src/Monitor/Input/Valid.antt =====
-- When the state of crates/qup-test-tui/src/app.rs is well formed, and `App::apply` on such states.
use qup.Prelude.{
  ℕ, suc, ◌≡◌, refl, ap, inl, inr, Bool-cases, true, false, Option, none, some, [], ◌∷◌, List,
  Result-cases, get_elem?, ◌==◌, if◌then◌else◌, arith,
}
use mathlib.Core.Path.{subst}
use qup.Wire.Scalar.{is_writable}
use qup.Client.Message.{KeyInfo}
use qup.Decimal.{Text, parse_i64}
use qup.Decimal.Numeric.{IsNumeric, parse_i64-IsNumeric}
use qup.Monitor.App.{
  KeyRow, EditModal, App, Instant, NetworkEvent, value_updated, write_succeeded, write_failed,
  find_row, is_editable, from_row, update_rows, update_key_value, change_modal, close_modal, apply,
  opened, open_modal_for_key, reported, set_error,
}

abbrev pub infos : List KeyRow → List KeyInfo
infos [] = []
infos (row ∷ rows) = row.info ∷ infos rows

-- A key that may be written stands in the table.
pub record IsWritableKey (rows : List KeyRow) (keyref : ℕ) : Type 0 where
  pub index : ℕ
  pub info : KeyInfo
  pub listed : get_elem? (infos rows) index ≡ some info
  pub named : info.keyref ≡ keyref
  pub writable : is_writable info.keyflags ≡ true

module _ {X : Type 0} where
  pub record IsValidModal (rows : List KeyRow) (modal : EditModal X) : Type 0 where
    pub of_key : IsWritableKey rows modal.keyref
    pub numeric : IsNumeric modal.number_input
    pub settled : modal.submitting ≡ true → modal.error ≡ none

  -- No modal is open, or a valid one.
  abbrev pub IsValidFor : List KeyRow → Option (EditModal X) → Type 0
  IsValidFor rows none = Unit
  IsValidFor rows (some modal) = IsValidModal rows modal

  abbrev pub IsValid : App X → Type 0
  IsValid app = IsValidFor app.keys app.modal

infos-update_rows :
    (keyref : ℕ) (value : Text) (last_read : Option Instant) (rows : List KeyRow)
    → infos (update_rows keyref value last_read rows) ≡ infos rows
unfolding update_rows
infos-update_rows keyref value last_read [] = refl
infos-update_rows keyref value last_read (row ∷ rows) =
    elim (Bool-cases (row.info.keyref == keyref)) [
      | inl same ↦ rw same refl
      | inr other ↦ rw other (ap (◌∷◌ row.info) (infos-update_rows keyref value last_read rows))
    ]

find_row-IsWritableKey :
    (keyref : ℕ) (rows : List KeyRow) {row : KeyRow}
    → find_row (is_editable keyref) rows ≡ some row
    → IsWritableKey rows row.info.keyref
unfolding find_row
find_row-IsWritableKey keyref [] {row} h = cc
find_row-IsWritableKey keyref (first ∷ rows) {row} h =
    elim (Bool-cases (is_editable keyref first)) [
      | inl found ↦
          let same : first ≡ row = ground arith in
          let here : IsWritableKey (first ∷ rows) first.info.keyref = record {
            index = 0;
            info = first.info;
            listed = refl;
            named = refl;
            writable = ground arith;
          } in
          subst (λ (r : KeyRow). IsWritableKey (first ∷ rows) r.info.keyref) same here
      | inr other ↦
          let later = find_row-IsWritableKey keyref rows (rw other at h) in
          record {
            index = suc later.index;
            info = later.info;
            listed = later.listed;
            named = later.named;
            writable = later.writable;
          }
    ]

IsWritableKey-updated :
    (keyref updated : ℕ) (value : Text) (last_read : Option Instant) (rows : List KeyRow)
    → IsWritableKey rows keyref
    → IsWritableKey (update_rows updated value last_read rows) keyref
IsWritableKey-updated keyref updated value last_read rows h = record {
  index = h.index;
  info = h.info;
  listed = rw (infos-update_rows updated value last_read rows) (h.listed);
  named = h.named;
  writable = h.writable;
}

module _ {X : Type 0} where
  from_row-IsValidModal :
      (keyref : ℕ) (rows : List KeyRow) (row : KeyRow)
      → find_row (is_editable keyref) rows ≡ some row
      → IsValidModal rows (from_row {X = X} row)
  unfolding from_row
  from_row-IsValidModal keyref rows row found = record {
    of_key = find_row-IsWritableKey keyref rows found;
    numeric = elim (Result-cases (parse_i64 row.value)) [
      | inl (number, e) ↦ rw e (parse_i64-IsNumeric row.value e)
      | inr (fault, e) ↦ rw e tt
    ];
    settled = λ h. cc;
  }

  pub open_modal_for_key-IsValid :
      (keyref : ℕ) (app : App X) → IsValid app → IsValid (open_modal_for_key keyref app)
  unfolding open_modal_for_key
  open_modal_for_key-IsValid keyref app h = go (find_row (is_editable keyref) app.keys) refl
    where
      go :
          (found : Option KeyRow)
          → find_row (is_editable keyref) app.keys ≡ found
          → IsValid (opened found app)
      go none e = h
      go (some row) e = from_row-IsValidModal keyref app.keys row e

  change_modal-IsValidFor :
      (rows : List KeyRow) (keyref : ℕ) (change : EditModal X → EditModal X)
      (modal : Option (EditModal X))
      → ((held : EditModal X) → IsValidModal rows held → IsValidModal rows (change held))
      → IsValidFor rows modal
      → IsValidFor rows (change_modal keyref change modal)
  change_modal-IsValidFor rows keyref change none keeps h = tt
  change_modal-IsValidFor rows keyref change (some modal) keeps h =
      elim (modal.keyref == keyref)
        as (λ b. IsValidModal rows (if b then change modal else modal)) [
          | true ↦ keeps modal h
          | false ↦ h
        ]

  close_modal-IsValidFor :
      (rows : List KeyRow) (keyref : ℕ) (modal : Option (EditModal X))
      → IsValidFor rows modal
      → IsValidFor rows (close_modal keyref modal)
  close_modal-IsValidFor rows keyref none h = tt
  close_modal-IsValidFor rows keyref (some modal) h =
      elim (modal.keyref == keyref) as (λ b. IsValidFor rows (if b then none else some modal)) [
        | true ↦ tt
        | false ↦ h
      ]

  IsValidFor-updated :
      (updated : ℕ) (value : Text) (last_read : Option Instant) (rows : List KeyRow)
      (modal : Option (EditModal X))
      → IsValidFor rows modal
      → IsValidFor (update_rows updated value last_read rows) modal
  IsValidFor-updated updated value last_read rows none h = tt
  IsValidFor-updated updated value last_read rows (some modal) h = record {
    of_key = IsWritableKey-updated modal.keyref updated value last_read rows h.of_key;
    numeric = h.numeric;
    settled = h.settled;
  }

  -- What the connection reports keeps the application valid.
  pub apply-IsValid :
      (event : NetworkEvent X) (app : App X) → IsValid app → IsValid (apply event app)
  unfolding apply update_key_value
  apply-IsValid NetworkEvent.connecting app h = tt
  apply-IsValid (NetworkEvent.connected node_id keys) app h = tt
  apply-IsValid (NetworkEvent.disconnected error) app h = tt
  apply-IsValid (value_updated keyref value last_read) app h =
      change_modal-IsValidFor _ keyref (λ modal. record modal { current_value = value }) app.modal
        (λ held k. record { of_key = k.of_key; numeric = k.numeric; settled = k.settled })
        (IsValidFor-updated keyref value last_read app.keys app.modal h)
  apply-IsValid (write_succeeded keyref value last_read) app h =
      close_modal-IsValidFor _ keyref app.modal
        (IsValidFor-updated keyref value (some last_read) app.keys app.modal h)
  apply-IsValid (write_failed keyref error) app h =
      change_modal-IsValidFor app.keys keyref (set_error (reported error)) app.modal
        (λ held k. record { of_key = k.of_key; numeric = k.numeric; settled = λ e. cc }) h
