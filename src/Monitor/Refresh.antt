-- ===== src/Monitor/Refresh.antt =====
-- How the worker of crates/qup-test-tui/src/network.rs reads keys again. `fuel` bounds the messages of
-- each wait, and the keys that a drain takes from the list of the changed ones.
use qup.Prelude.{
  ℕ, zero, suc, Option, none, some, [], ◌∷◌, ◌++◌, List, Bytes, ok, err, map_err, if◌then◌else◌,
}
use qup.Prelude.Exec.{Exec, pure, ◌>>=◌, ◌>>◌}
use qup.Wire.Scalar.{is_readable}
use qup.Client.Message.{KeyInfo}
use qup.Decimal.{Text}
use qup.Monitor.App.{Instant, NetworkEvent, value_updated}
use qup.Monitor.Text.{format_value}
use qup.Monitor.Table.{
  Problem, refresh_failed, viewer_closed, unfinished, Worker, codes, find_key, pop_changed,
}
use qup.Monitor.Worker.{Link, enqueue_changed_keys, read_value_with_changes}

abbrev pub Working : (S X A : Type 0) → Type 0
Working S X A = Exec (Worker S X) (Problem X) A

module _ {S X : Type 0} where
  -- A call of the client, with its error as a text.
  abbrev pub on_client : {E A : Type 0} → (E → Problem X) → Exec S E A → Working S X A
  on_client text m worker =
      let (r, s) = m worker.client in (map_err text r, record worker { client = s })

  -- `let mut pending_changed = Vec::new();`
  abbrev pub no_changes : Working S X (Unit {0})
  no_changes worker = (ok tt, record worker { pending_changed = [] })

  abbrev pub enqueue : List ℕ → Working S X (Unit {0})
  enqueue keyrefs worker = (
    ok tt,
    record worker { pending_changed = enqueue_changed_keys worker.pending_changed keyrefs },
  )

module _ {S X : Type 0} (link : Link S X) (escape_debug : Bytes → Text) (fuel : ℕ) where
  abbrev pub now : Worker S X → Instant
  now worker = link.now worker.client

  -- `tx.send(…).map_err(|_closed| …)?`
  unfoldable pub send_event : NetworkEvent (Problem X) → Working S X (Unit {0})
  send_event event worker =
      if link.is_viewer_open worker.client
      then (ok tt, record worker { events = worker.events ++ event ∷ [] })
      else (err viewer_closed, worker)

  -- The read of a key and its event, as a drain and an order to read all keys again do it.
  unfoldable pub refresh_key : ℕ → KeyInfo → Working S X (Unit {0})
  unfolding send_event read_value_with_changes enqueue_changed_keys format_value
  refresh_key keyref key = do
    (value, changed) ←
        on_client (refresh_failed key.name) (read_value_with_changes link fuel keyref)
    enqueue changed
    λ worker.
        send_event (value_updated keyref (format_value escape_debug value) (some (now worker)))
          worker

  unfoldable pub reread_all_readable_keys : List KeyInfo → Working S X (Unit {0})
  unfolding refresh_key
  reread_all_readable_keys [] = pure tt
  reread_all_readable_keys (key ∷ keys) = do
    if is_readable key.keyflags then refresh_key key.keyref key else pure tt
    reread_all_readable_keys keys

  abbrev pub drain_key : ℕ → Option KeyInfo → Working S X (Unit {0})
  drain_key keyref none = pure tt
  drain_key keyref (some key) =
      if is_readable key.keyflags
      then refresh_key keyref key
      else send_event (value_updated keyref (codes "<changed; unreadable>") none)

  -- A round of the drain; `again` is the rest of the loop.
  abbrev pub drain_popped :
      List KeyInfo → Working S X (Unit {0}) → Option (ℕ × List ℕ) → Working S X (Unit {0})
  drain_popped keys again none worker = (ok tt, worker)
  drain_popped keys again (some (keyref, rest)) worker =
      (drain_key keyref (find_key keyref keys) >> again) (record worker { pending_changed = rest })

  unfoldable pub drain_changed_keys : List KeyInfo → ℕ → Working S X (Unit {0})
  unfolding refresh_key send_event find_key pop_changed
  drain_changed_keys keys zero worker = (err unfinished, worker)
  drain_changed_keys keys (suc left) worker =
      drain_popped keys (drain_changed_keys keys left) (pop_changed worker.pending_changed) worker
