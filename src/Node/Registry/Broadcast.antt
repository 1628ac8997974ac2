-- ===== src/Node/Registry/Broadcast.antt =====
-- Whom `broadcast_changed` tells.
use qup.Prelude.{
  ℕ, ◌≡◌, refl, sym, ap, ◌∙◌, inl, inr, ◌&&◌, Bool-cases, Option, none, some, [], ◌∷◌, ◌++◌, Bytes,
  ok, Result-cases, ◌==◌, if◌then◌else◌,
}
use qup.Node.Frames.{encode_changed}
use qup.Node.Registry.{
  ConnectionHandle, ConnectionRegistry, Connections, send, is_observing, find, tell, tell_all,
  tell_frame, broadcast_changed,
}

-- What a connection has after a broadcast: the frame is the last of its queue if it observes the key
-- and its receiver is there, and else its queue is the one it was.
abbrev pub told : ℕ → Bytes → ConnectionHandle → ConnectionHandle
told keyref frame handle = record handle {
  queue =
      if is_observing keyref handle && handle.receiving
      then handle.queue ++ (frame ∷ [])
      else handle.queue;
}

abbrev pub told_if_there : ℕ → Bytes → Option ConnectionHandle → Option ConnectionHandle
told_if_there keyref frame none = none
told_if_there keyref frame (some handle) = some (told keyref frame handle)

tell-told :
    (keyref : ℕ) (frame : Bytes) (handle : ConnectionHandle)
    → tell keyref frame handle ≡ told keyref frame handle
unfolding send
tell-told keyref frame handle = elim (Bool-cases (is_observing keyref handle)) [
  | inr blind ↦ rw blind refl
  | inl observing ↦ elim (Bool-cases handle.receiving) [
    | inr gone ↦ rw (observing, gone) refl
    | inl there ↦ rw (observing, there) refl
  ]
]

find-tell_all :
    (keyref : ℕ) (frame : Bytes) (connections : Connections) (id : ℕ)
    → find id (tell_all keyref frame connections) ≡ told_if_there keyref frame (find id connections)
unfolding find tell_all
find-tell_all keyref frame [] id = refl
find-tell_all keyref frame ((other, handle) ∷ rest) id = elim (Bool-cases (id == other)) [
  | inl same ↦ rw same (ap some (tell-told keyref frame handle))
  | inr different ↦ rw different (find-tell_all keyref frame rest id)
]

-- A broadcast that did not panic queues the CHANGED frame of the key, once and behind what is
-- queued, for each connection that observes the key and whose receiver is there, and changes nothing
-- else.
pub broadcast_changed-told :
    (keyref : ℕ) (registry registry' : ConnectionRegistry)
    → broadcast_changed keyref registry ≡ (ok tt, registry')
    → (frame : Bytes) × (encode_changed keyref ≡ ok frame)
      × (registry'.next_id ≡ registry.next_id)
      × ((id : ℕ)
          → find id registry'.connections
            ≡ told_if_there keyref frame (find id registry.connections))
unfolding broadcast_changed tell_frame
broadcast_changed-told keyref registry registry' h = elim (Result-cases (encode_changed keyref)) [
  | inr (e, panics) ↦ let no = rw panics at h in cc
  | inl (frame, is) ↦
      let after = ap (λ p. p.1) (rw is at h) in
      (
        frame,
        is,
        ap (λ r. r.next_id) (sym after),
        λ id.
            ap (λ r. find id r.connections) (sym after)
            ∙ find-tell_all keyref frame registry.connections id,
      )
]
