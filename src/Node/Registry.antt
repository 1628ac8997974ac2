-- ===== src/Node/Registry.antt =====
-- `ConnectionHandle` and `ConnectionRegistry` of crates/qup-test-node/src/main.rs.
pub mod Broadcast
use Prim.Native.Nat.{bit_and, bit_or}
use qup.Prelude.{
  ℕ, ◌+◌, ◌-◌, ◌%◌, ◌^◌, Bool, true, false, not, Option, none, some, List, [], ◌∷◌, ◌++◌, Bytes,
  Result, ok, err, ltb, ◌==◌, if◌then◌else◌,
}
use qup.Node.Keys.{key_mask}
use qup.Node.Frames.{Panic, encode_changed}

-- The channel's frames in the order in which they were sent, and whether its receiver is still
-- there: a `send` after that fails.
pub record ConnectionHandle : Type 0 where
  pub receiving : Bool
  pub queue : List Bytes
  pub observed_mask : ℕ

-- ConnectionHandle::new, with the sender of a new channel
abbrev pub new_handle : ConnectionHandle
new_handle = record { receiving = true; queue = []; observed_mask = 0 }

unfoldable pub send : Bytes → ConnectionHandle → Bool × ConnectionHandle
send frame handle =
    if handle.receiving
    then (true, record handle { queue = handle.queue ++ (frame ∷ []) })
    else (false, handle)

-- `fetch_or(mask)` and `fetch_and(!mask)` on a `u16`
abbrev pub or_mask : Option ℕ → ℕ → ℕ
or_mask none mask = mask
or_mask (some bit) mask = bit_or mask bit

abbrev pub and_not_mask : Option ℕ → ℕ → ℕ
and_not_mask none mask = mask
and_not_mask (some bit) mask = bit_and mask (65535 - bit)

abbrev pub meets_mask : Option ℕ → ℕ → Bool
meets_mask none mask = false
meets_mask (some bit) mask = not (bit_and mask bit == 0)

unfoldable pub observe : ℕ → ConnectionHandle → ConnectionHandle
unfolding key_mask
observe keyref handle = record handle {
  observed_mask = or_mask (key_mask keyref) handle.observed_mask;
}

unfoldable pub unobserve : ℕ → ConnectionHandle → ConnectionHandle
unfolding key_mask
unobserve keyref handle = record handle {
  observed_mask = and_not_mask (key_mask keyref) handle.observed_mask;
}

unfoldable pub is_observing : ℕ → ConnectionHandle → Bool
unfolding key_mask
is_observing keyref handle = meets_mask (key_mask keyref) handle.observed_mask

-- The map from connection ids to handles, by ascending id.
abbrev pub Connections : Type 0
Connections = List (ℕ × ConnectionHandle)

unfoldable pub insert : ℕ → ConnectionHandle → Connections → Connections
insert id handle [] = (id, handle) ∷ []
insert id handle ((other, h) ∷ rest) =
    let later = insert id handle rest in
    if ltb id other
    then (id, handle) ∷ (other, h) ∷ rest
    else if id == other
    then (id, handle) ∷ rest
    else (other, h) ∷ later

unfoldable pub remove : ℕ → Connections → Connections
remove id [] = []
remove id ((other, h) ∷ rest) =
    let later = remove id rest in if id == other then rest else (other, h) ∷ later

unfoldable pub find : ℕ → Connections → Option ConnectionHandle
find id [] = none
find id ((other, h) ∷ rest) = let later = find id rest in if id == other then some h else later

-- The handle of a connection is shared with the registry: a change to it is seen there.
unfoldable pub replace : ℕ → ConnectionHandle → Connections → Connections
replace id handle [] = []
replace id handle ((other, h) ∷ rest) =
    let later = replace id handle rest in
    if id == other then (other, handle) ∷ rest else (other, h) ∷ later

pub record ConnectionRegistry : Type 0 where
  pub next_id : ℕ
  pub connections : Connections

-- ConnectionRegistry::new
abbrev pub new_registry : ConnectionRegistry
new_registry = record { next_id = 1; connections = [] }

-- `fetch_add(1)` on a `u64`
unfoldable pub register : ConnectionRegistry → ℕ × ConnectionRegistry
unfolding insert
register registry = (
  registry.next_id,
  record {
    next_id = (registry.next_id + 1) % 2 ^ 64;
    connections = insert registry.next_id new_handle registry.connections;
  },
)

unfoldable pub unregister : ℕ → ConnectionRegistry → ConnectionRegistry
unfolding remove
unregister id registry = record registry { connections = remove id registry.connections }

-- One round of the loop of `broadcast_changed`; whether the frame was sent is not looked at.
abbrev pub tell : ℕ → Bytes → ConnectionHandle → ConnectionHandle
tell keyref frame handle = if is_observing keyref handle then (send frame handle).1 else handle

unfoldable pub tell_all : ℕ → Bytes → Connections → Connections
unfolding is_observing send
tell_all keyref frame [] = []
tell_all keyref frame ((id, handle) ∷ rest) =
    (id, tell keyref frame handle) ∷ tell_all keyref frame rest

-- The loop, once the frame is encoded.
unfoldable pub tell_frame :
    ℕ → Result Bytes Panic → ConnectionRegistry → Result (Unit {0}) Panic × ConnectionRegistry
unfolding tell_all
tell_frame keyref (err e) registry = (err e, registry)
tell_frame keyref (ok frame) registry =
    (ok tt, record registry { connections = tell_all keyref frame registry.connections })

unfoldable pub broadcast_changed :
    ℕ → ConnectionRegistry → Result (Unit {0}) Panic × ConnectionRegistry
unfolding tell_frame encode_changed
broadcast_changed keyref registry = tell_frame keyref (encode_changed keyref) registry
