-- ===== src/Node/Dispatch/Reachable.antt =====
-- The runs of the test node: what its tasks do, one step after the other in any order.
use qup.Prelude.{ℕ, ◌≡◌, sym, ap, ◌∙◌, ok}
use qup.Node.State.{new_state}
use qup.Node.State.Valid.{new_state-Valid}
use qup.Node.Registry.{new_registry}
use qup.Node.Dispatch.{Node, Event, step}
use qup.Node.Dispatch.Safe.{Safe, Safely, returned}
use qup.Node.Dispatch.Steps.{IsPossible, step-Safely}

-- The node of `main`, before the first connection.
abbrev pub new_node : ℕ → Node
new_node seed = record { registry = new_registry; state = new_state seed }

-- The nodes that any interleaving of the tasks' steps leads to.
pub data Reachable (seed : ℕ) : Node → Type 0 where
  start : Reachable seed (new_node seed)
  next :
      {node node' : Node}
      → (event : Event) → Reachable seed node
      → IsPossible event
      → step event node ≡ (ok tt, node')
      → Reachable seed node'

after_step :
    (event : Event) (node node' : Node)
    → Safely (step event node)
    → step event node ≡ (ok tt, node')
    → Safe node'
after_step event node node' (returned u after is safe) h =
    let same : after ≡ node' = ap (λ x. x.1) (sym is ∙ h) in rw same at safe

-- In every node that an interleaving of steps leads to, all queued frames carry messages that a
-- client receives and all stored values can be sent, and the next step does not panic, whichever
-- it is.
pub Reachable-Safe :
    (seed : ℕ) (node : Node)
    → Reachable seed node
    → Safe node × ((event : Event) → IsPossible event → Safely (step event node))
Reachable-Safe seed node r =
    let safe = go node r in (safe, λ event h. step-Safely event node h safe)
  where
    go : (node : Node) → Reachable seed node → Safe node
    go node start = record { queued = tt; valid = new_state-Valid seed }
    go node (next {node = before} event r possible h) =
        after_step event before node (step-Safely event before possible (go before r)) h
