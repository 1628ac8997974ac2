-- ===== src/Monitor/App.antt =====
-- The state of crates/qup-test-tui/src/app.rs and `App::apply`. `X` is what the connection's worker
-- says in its error texts. An `Instant` is the nanoseconds of the clock.
use qup.Prelude.{
  ℕ, suc, Bool, true, false, ◌&&◌, Option, none, some, [], ◌∷◌, List, Bytes, Result, ok, err,
  length, ◌==◌, if◌then◌else◌,
}
use qup.Word.{ℤ}
use qup.Wire.Scalar.{is_writable, is_observable}
use qup.Client.Message.{KeyInfo}
use qup.Client.Encode.{Value}
use qup.Decimal.{Text, ParseIntError, parse_i64}
use qup.Monitor.Geometry.{ModalFocus}

abbrev pub Instant : Type 0
Instant = ℕ

pub record KeyRow : Type 0 where
  pub info : KeyInfo
  pub value : Text
  pub last_read : Option Instant

pub data AppStatus (X : Type 0) : Type 0 where
  connecting connected : AppStatus X
  disconnected : (error : X) → AppStatus X

-- The texts given to `set_error`.
pub data ModalError (X : Type 0) : Type 0 where
  invalid_number : ParseIntError → ModalError X
  connection_manager_stopped : ModalError X
  reported : X → ModalError X

pub record EditModal (X : Type 0) : Type 0 where
  pub keyref : ℕ
  pub key_name : Bytes
  pub current_value : Text
  pub string_input : Text
  pub number_input : Text
  pub focus : ModalFocus
  pub error : Option (ModalError X)
  pub submitting : Bool

pub data NetworkEvent (X : Type 0) : Type 0 where
  connecting : NetworkEvent X
  connected : (node_id : Bytes) → (keys : List KeyRow) → NetworkEvent X
  disconnected : (error : X) → NetworkEvent X
  value_updated : (keyref : ℕ) → (value : Text) → (last_read : Option Instant) → NetworkEvent X
  write_succeeded : (keyref : ℕ) → (value : Text) → (last_read : Instant) → NetworkEvent X
  write_failed : (keyref : ℕ) → (error : X) → NetworkEvent X

pub data WorkerCommand : Type 0 where
  refresh_all_readable : WorkerCommand
  write_value : (keyref : ℕ) → Value → WorkerCommand

pub record App (X : Type 0) : Type 0 where
  pub addr : Bytes
  pub retry_secs : ℕ
  pub status : AppStatus X
  pub node_id : Option Bytes
  pub keys : List KeyRow
  pub modal : Option (EditModal X)

-- The three texts of the status line, by what they are filled with.
pub data StatusLine (X : Type 0) : Type 0 where
  connecting_to : (addr : Bytes) → StatusLine X
  connected_to : (addr : Bytes) → (node : Option Bytes) → (keys observable : ℕ) → StatusLine X
  disconnected_from : (addr : Bytes) → (error : X) → (retry_secs : ℕ) → StatusLine X

-- `.find(…)` over the rows
unfoldable pub find_row : (KeyRow → Bool) → List KeyRow → Option KeyRow
find_row test [] = none
find_row test (row ∷ rows) = let rest = find_row test rows in if test row then some row else rest

abbrev pub is_editable : ℕ → KeyRow → Bool
is_editable keyref row = (row.info.keyref == keyref) && is_writable row.info.keyflags

abbrev pub prefill : Text → Result ℤ ParseIntError → Text
prefill value (ok number) = value
prefill value (err e) = []

unfoldable pub count_observable : List KeyRow → ℕ
count_observable [] = 0
count_observable (row ∷ rows) =
    let rest = count_observable rows in if is_observable row.info.keyflags then suc rest else rest

-- The first row of the key, updated.
unfoldable pub update_rows : ℕ → Text → Option Instant → List KeyRow → List KeyRow
update_rows keyref value last_read [] = []
update_rows keyref value last_read (row ∷ rows) =
    let rest = update_rows keyref value last_read rows in
    if row.info.keyref == keyref
    then (record row { value = value; last_read = last_read }) ∷ rows
    else row ∷ rest

module _ {X : Type 0} where
  -- EditModal::from_row
  unfoldable pub from_row : KeyRow → EditModal X
  from_row row = record {
    keyref = row.info.keyref;
    key_name = row.info.name;
    current_value = row.value;
    string_input = [];
    number_input = prefill row.value (parse_i64 row.value);
    focus = ModalFocus.string_input;
    error = none;
    submitting = false;
  }

  abbrev pub mark_submitting : EditModal X → EditModal X
  mark_submitting modal = record modal { error = none; submitting = true }

  abbrev pub set_error : ModalError X → EditModal X → EditModal X
  set_error error modal = record modal { error = some error; submitting = false }

  -- App::new
  unfoldable pub new_app : Bytes → ℕ → App X
  new_app addr retry_secs = record {
    addr = addr;
    retry_secs = retry_secs;
    status = AppStatus.connecting;
    node_id = none;
    keys = [];
    modal = none;
  }

  unfoldable pub update_key_value : ℕ → Text → Option Instant → App X → App X
  unfolding update_rows
  update_key_value keyref value last_read app = record app {
    keys = update_rows keyref value last_read app.keys;
  }

  -- `if let Some(modal) = self.modal.as_mut() { if modal.keyref == keyref { … } }`
  abbrev pub change_modal :
      ℕ → (EditModal X → EditModal X) → Option (EditModal X) → Option (EditModal X)
  change_modal keyref change none = none
  change_modal keyref change (some modal) =
      some (if modal.keyref == keyref then change modal else modal)

  abbrev pub close_modal : ℕ → Option (EditModal X) → Option (EditModal X)
  close_modal keyref none = none
  close_modal keyref (some modal) = if modal.keyref == keyref then none else some modal

  -- App::apply
  unfoldable pub apply : NetworkEvent X → App X → App X
  unfolding update_key_value
  apply NetworkEvent.connecting app = record app {
    status = AppStatus.connecting;
    node_id = none;
    modal = none;
  }
  apply (NetworkEvent.connected node_id keys) app = record app {
    status = AppStatus.connected;
    node_id = some node_id;
    keys = keys;
    modal = none;
  }
  apply (NetworkEvent.disconnected error) app = record app {
    status = AppStatus.disconnected error;
    node_id = none;
    modal = none;
  }
  apply (value_updated keyref value last_read) app =
      let updated = update_key_value keyref value last_read app in
      record updated {
        modal = change_modal keyref (λ modal. record modal { current_value = value }) app.modal;
      }
  apply (write_succeeded keyref value last_read) app =
      let updated = update_key_value keyref value (some last_read) app in
      record updated { modal = close_modal keyref app.modal }
  apply (write_failed keyref error) app = record app {
    modal = change_modal keyref (set_error (reported error)) app.modal;
  }

  abbrev pub status_text : AppStatus X → App X → StatusLine X
  status_text AppStatus.connecting app = connecting_to app.addr
  status_text AppStatus.connected app =
      connected_to app.addr app.node_id (length app.keys) (count_observable app.keys)
  status_text (AppStatus.disconnected error) app = disconnected_from app.addr error app.retry_secs

  unfoldable pub status_line : App X → StatusLine X
  unfolding count_observable
  status_line app = status_text app.status app

  abbrev pub opened : Option KeyRow → App X → App X
  opened none app = app
  opened (some row) app = record app { modal = some (from_row row) }

  unfoldable pub open_modal_for_key : ℕ → App X → App X
  unfolding find_row from_row
  open_modal_for_key keyref app = opened (find_row (is_editable keyref) app.keys) app
