-- ===== src/Monitor/Table.antt =====
-- What the worker of crates/qup-test-tui/src/network.rs keeps: the keys of the node, those that
-- changed, and what it tells the viewer.
use Prim.Native.Char.{code}
use Prim.Native.String.{String}
use qup.Prelude.{ℕ, Option, none, some, [], ◌∷◌, List, Bytes, ltb, ◌==◌, if◌then◌else◌}
use qup.Wire.Scalar.{is_readable, is_observable}
use qup.Client.Message.{KeyInfo}
use qup.Decimal.{Text}
use qup.Monitor.App.{NetworkEvent}
use qup.Monitor.Worker.{Trouble}

-- The texts of errors, with the name of the key that they are about.
pub data Problem (X : Type 0) : Type 0 where
  connect_failed identify_failed enumeration_failed connection_lost : X → Problem X
  observe_failed initial_read_failed refresh_failed : (name : Bytes) → Trouble X → Problem X
  heartbeat_failed write_refused write_broke : Trouble X → Problem X
  viewer_closed unexpected_unsolicited_response connection_closed unfinished : Problem X

-- The worker's end of both channels: the events that it sent, and the keys that changed. `client` is
-- the connection with its surroundings.
pub record Worker (S X : Type 0) : Type 0 where
  pub client : S
  pub pending_changed : List ℕ
  pub events : List (NetworkEvent (Problem X))

-- The characters of a text in ASCII.
abbrev pub codes : String → Text
codes String.[] = []
codes (String.◌∷◌ c s) = code c ∷ codes s

unfoldable pub unreadable_text : KeyInfo → Text
unreadable_text key =
    if is_observable key.keyflags then codes "<observable; unreadable>" else codes "<unreadable>"

unfoldable pub initial_display_value : KeyInfo → Text
unfolding unreadable_text
initial_display_value key =
    if is_readable key.keyflags
    then if is_observable key.keyflags then codes "<waiting for update>" else codes "<loading>"
    else unreadable_text key

-- The `BTreeMap` of the keys, in the order of their references.
unfoldable pub insert_key : KeyInfo → List KeyInfo → List KeyInfo
insert_key key [] = key ∷ []
insert_key key (first ∷ keys) =
    let rest = insert_key key keys in
    if ltb key.keyref first.keyref
    then key ∷ first ∷ keys
    else if key.keyref == first.keyref
    then key ∷ keys
    else first ∷ rest

unfoldable pub find_key : ℕ → List KeyInfo → Option KeyInfo
find_key keyref [] = none
find_key keyref (first ∷ keys) =
    let rest = find_key keyref keys in if first.keyref == keyref then some first else rest

-- The `for` that fills the map.
unfoldable pub keys_by_ref : List KeyInfo → List KeyInfo → List KeyInfo
unfolding insert_key
keys_by_ref map [] = map
keys_by_ref map (key ∷ keys) = keys_by_ref (insert_key key map) keys

-- `pending_changed.pop()`
unfoldable pub pop_changed : List ℕ → Option (ℕ × List ℕ)
pop_changed [] = none
pop_changed (keyref ∷ keyrefs) = elim (pop_changed keyrefs) [
  | none ↦ some (keyref, [])
  | some (last, rest) ↦ some (last, keyref ∷ rest)
]
