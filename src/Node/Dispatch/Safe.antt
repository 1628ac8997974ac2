-- ===== src/Node/Dispatch/Safe.antt =====
-- The invariant of the test node, and its parts.
use qup.Prelude.{ℕ, ◌≡◌, some, List, [], ◌∷◌, ◌++◌, Bytes, All, Result, ok, arith}
use qup.Prelude.Exec.{continue}
use qup.Node.Frames.{Panic}
use qup.Node.Frames.Delivery.{Deliverable}
use qup.Node.State.Valid.{Valid}
use qup.Node.Registry.{ConnectionHandle, Connections, send, find, replace, insert, remove, tell_all}
use qup.Node.Dispatch.{Node, Serving}

abbrev pub Queued : ConnectionHandle → Type 0
Queued handle = All Deliverable handle.queue

abbrev pub AllQueued : Connections → Type 0
AllQueued [] = Unit {0}
AllQueued ((id, handle) ∷ rest) = Queued handle × AllQueued rest

-- Every frame in a queue can be delivered, and every stored value can be sent.
pub record Safe (node : Node) : Type 0 where
  pub queued : AllQueued node.registry.connections
  pub valid : Valid node.state

-- A call has returned, and the node is safe.
pub data Safely {A : Type 0} (x : Result A Panic × Node) : Type 0 where
  returned : (a : A) (node : Node) → x ≡ (ok a, node) → Safe node → Safely x

pub Safely-continue :
    {A B : Type 0} (x : Result A Panic × Node) (f : A → Serving B)
    → Safely x
    → ((a : A) (node : Node) → Safe node → Safely (f a node))
    → Safely (continue x f)
Safely-continue x f (returned a node is safe) rest = rw is (rest a node safe)

pub find-Queued :
    (id : ℕ) (connections : Connections) (handle : ConnectionHandle)
    → AllQueued connections
    → find id connections ≡ some handle
    → Queued handle
unfolding find
find-Queued id [] handle all h = cc
find-Queued id ((other, x) ∷ rest) handle all h = ground (arith, find-Queued id rest handle)

pub replace-AllQueued :
    (id : ℕ) (handle : ConnectionHandle) (connections : Connections)
    → AllQueued connections
    → Queued handle
    → AllQueued (replace id handle connections)
unfolding replace
replace-AllQueued id handle [] all q = tt
replace-AllQueued id handle ((other, x) ∷ rest) all q =
    ground (arith, replace-AllQueued id handle rest)

pub insert-AllQueued :
    (id : ℕ) (handle : ConnectionHandle) (connections : Connections)
    → AllQueued connections
    → Queued handle
    → AllQueued (insert id handle connections)
unfolding insert
insert-AllQueued id handle [] all q = (q, tt)
insert-AllQueued id handle ((other, x) ∷ rest) all q =
    ground (arith, insert-AllQueued id handle rest)

pub remove-AllQueued :
    (id : ℕ) (connections : Connections) → AllQueued connections → AllQueued (remove id connections)
unfolding remove
remove-AllQueued id [] all = tt
remove-AllQueued id ((other, x) ∷ rest) all = ground (arith, remove-AllQueued id rest)

append-Queued :
    (frames : List Bytes) (frame : Bytes)
    → All Deliverable frames
    → Deliverable frame
    → All Deliverable (frames ++ (frame ∷ []))
append-Queued [] frame all d = (d, tt)
append-Queued (x ∷ frames) frame all d = (all.0, append-Queued frames frame all.1 d)

pub send-Queued :
    (frame : Bytes) (handle : ConnectionHandle)
    → Deliverable frame
    → Queued handle
    → Queued (send frame handle).1
unfolding send
send-Queued frame handle d q = ground (arith, append-Queued handle.queue frame)

pub tell_all-AllQueued :
    (keyref : ℕ) (frame : Bytes) (connections : Connections)
    → Deliverable frame
    → AllQueued connections
    → AllQueued (tell_all keyref frame connections)
unfolding tell_all
tell_all-AllQueued keyref frame [] d all = tt
tell_all-AllQueued keyref frame ((id, handle) ∷ rest) d all =
    ground (arith, send-Queued frame handle, tell_all-AllQueued keyref frame rest)
