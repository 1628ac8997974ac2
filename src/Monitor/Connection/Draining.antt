-- ===== src/Monitor/Connection/Draining.antt =====
-- `drain_changed_keys` of crates/qup-test-tui/src/network.rs, with all its rounds.
use qup.Prelude.{
  ℕ, ◌≡◌, Bool, true, false, ◌||◌, none, some, [], ◌++◌, List, Bytes, Result, ok, err,
}
use qup.Word.{contains}
use qup.Client.Message.{KeyInfo}
use qup.Decimal.{Text}
use qup.Monitor.App.{NetworkEvent}
use qup.Monitor.Worker.{Link}
use qup.Monitor.Worker.Reports.{Reports}
use qup.Monitor.Table.{Problem, Worker, find_key}
use qup.Monitor.Connection.Shown.{is_updated, IsFault, Steps}

module _ {S X : Type 0} (link : Link S X) (escape_debug : Bytes → Text) (notices_left : S → ℕ)
    (fuel : ℕ) where
  abbrev pub is_known : ℕ → List KeyInfo → Bool
  is_known keyref keys = elim (find_key keyref keys) [ none ↦ false | some key ↦ true ]

  -- The key was shown if it is known, or there was a fault.
  abbrev Passes : ℕ → Bool → Worker S X → Result (Unit {0}) (Problem X) × Worker S X → Type 0
  Passes keyref known before (ok done, after) =
      (steps : Steps link notices_left before after) × (known ≡ true
        → is_updated keyref steps.told ≡ true)
  Passes keyref known before (err problem, after) = IsFault problem

  -- Nothing is left, and every known key is shown that was left, or that a CHANGED message reported
  -- meanwhile; or there was a fault.
  abbrev pub IsDrained :
      List KeyInfo → Worker S X → Result (Unit {0}) (Problem X) × Worker S X → Type 0
  IsDrained keys before (ok done, after) =
      (after.pending_changed ≡ [])
      × (reported : List ℕ) × Reports link before.client reported after.client
      × (told : List (NetworkEvent (Problem X))) × (after.events ≡ before.events ++ told)
      × ((keyref : ℕ)
          → (contains before.pending_changed keyref || contains reported keyref) ≡ true
          → is_known keyref keys ≡ true
          → is_updated keyref told ≡ true)
  IsDrained keys before (err problem, after) = IsFault problem
