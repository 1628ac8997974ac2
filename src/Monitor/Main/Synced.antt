-- ===== src/Monitor/Main/Synced.antt =====
-- The terminal and the state in the loop of crates/qup-test-tui/src/main.rs.
use qup.Prelude.{
  ℕ, ◌≡◌, refl, inl, inr, Bool-cases, Bool, true, false, ◌||◌, Option, none, some, [], ◌∷◌, List,
  leb, ◌-◌,
}
use qup.Monitor.Geometry.{Rect}
use qup.Monitor.App.{App, NetworkEvent, Instant, apply}
use qup.Monitor.Desk.{CrosstermEvent}
use qup.Monitor.Input.{handle_event}
use qup.Monitor.Input.Valid.{IsValid, apply-IsValid}
use qup.Monitor.Screen.{Direction, Constraint, draw_geometry}
use qup.Monitor.Main.{
  Monitor, Round, last_read_tick, apply_updates, receive_updates, tick, redraw_screen, before_poll,
}

module _ (inner : Rect → Rect) (new_rect : ℕ → ℕ → ℕ → ℕ → Rect)
    (split : Direction → List Constraint → Rect → ℕ → Rect) {X : Type 0} where
  -- The terminal shows the application, and the geometry is that of the drawing.
  pub record IsShown (monitor : Monitor X) : Type 0 where
    pub frame_area : Rect
    pub drawn : monitor.drawn ≡ some monitor.desk.app
    pub placed : monitor.geometry ≡ draw_geometry inner new_rect split frame_area monitor.desk.app

  -- The application is valid, and it is shown unless the next round draws it.
  pub record IsSynced (monitor : Monitor X) : Type 0 where
    pub valid : IsValid monitor.desk.app
    pub shown : monitor.needs_redraw ≡ false → IsShown monitor

  apply_updates-IsValid :
      (updates : List (NetworkEvent X)) (app : App X)
      → IsValid app
      → IsValid (apply_updates updates app)
  unfolding apply_updates
  apply_updates-IsValid [] app h = h
  apply_updates-IsValid (update ∷ updates) app h =
      apply_updates-IsValid updates (apply update app) (apply-IsValid update app h)

  receive_updates-IsSynced :
      (updates : List (NetworkEvent X)) (monitor : Monitor X)
      → IsSynced monitor
      → IsSynced (receive_updates updates monitor)
  unfolding apply_updates
  receive_updates-IsSynced [] monitor h = record {
    valid = h.valid;
    shown = λ e.
        let still = h.shown (kept monitor.needs_redraw e) in
        record { frame_area = still.frame_area; drawn = still.drawn; placed = still.placed };
  }
    where
      kept : (b : Bool) → (b || false) ≡ false → b ≡ false
      kept true e = e
      kept false e = refl
  receive_updates-IsSynced (update ∷ updates) monitor h = record {
    valid = apply_updates-IsValid (update ∷ updates) monitor.desk.app h.valid;
    shown = λ e. absurd (drawn_again monitor.needs_redraw e);
  }
    where
      drawn_again : (b : Bool) → (b || true) ≡ false → ⊥
      drawn_again true e = cc
      drawn_again false e = cc

  tick-IsSynced :
      (now : Instant) (monitor : Monitor X) → IsSynced monitor → IsSynced (tick now monitor)
  tick-IsSynced now monitor h =
      elim (Bool-cases (leb last_read_tick (now - monitor.last_clock_redraw))) [
        | inl e ↦ rw e (record { valid = h.valid; shown = λ k. cc })
        | inr e ↦ rw e h
      ]

  redraw_screen-IsShown :
      (frame_area : Rect) (monitor : Monitor X)
      → IsSynced monitor
      → IsShown (redraw_screen inner new_rect split frame_area monitor)
        × IsValid (redraw_screen inner new_rect split frame_area monitor).desk.app
  redraw_screen-IsShown frame_area monitor h = elim (Bool-cases monitor.needs_redraw) [
    | inl e ↦ simp e (record { frame_area = frame_area; drawn = refl; placed = refl }, h.valid)
    | inr e ↦ simp e (h.shown e, h.valid)
  ]

  -- Whatever updates a round receives, when it polls for an event the terminal shows the application
  -- as it is, at the places that the event is looked up in, and the application is valid.
  pub before_poll-IsShown :
      (round : Round X) (monitor : Monitor X)
      → IsSynced monitor
      → IsShown (before_poll inner new_rect split round monitor)
        × IsValid (before_poll inner new_rect split round monitor).desk.app
  unfolding before_poll
  before_poll-IsShown round monitor h =
      redraw_screen-IsShown round.frame_area _
        (tick-IsSynced round.now _ (receive_updates-IsSynced round.updates monitor h))

  -- What an event does on the state that is polled, and whether the loop ends.
  abbrev Acts : Option CrosstermEvent → Monitor X → Bool × Monitor X → Type 0
  Acts none polled (quit, next) = (quit ≡ false) × (next.desk ≡ polled.desk)
  Acts (some event) polled (quit, next) =
      (quit ≡ (handle_event polled.geometry event polled.desk).0.quit)
      × (next.desk ≡ (handle_event polled.geometry event polled.desk).1)

  -- A round handles its event on the application with all its updates, valid and as the terminal shows
  -- it, at the places of that drawing.
  pub record Handles (round : Round X) (monitor : Monitor X) (result : Bool × Monitor X)
      : Type 0 where
    pub polled : Monitor X
    pub current :
        polled.desk ≡ record monitor.desk { app = apply_updates round.updates monitor.desk.app }
    pub valid : IsValid polled.desk.app
    pub shown : IsShown polled
    pub acts : Acts round.event polled result

  -- The rounds one after the other, until one ends the loop.
  pub data Runs : List (Round X) → Monitor X → Bool × Monitor X → Type 0 where
    waits : {monitor : Monitor X} → Runs [] monitor (false, monitor)
    quits :
        {round : Round X} {rounds : List (Round X)} {monitor next : Monitor X}
        → Handles round monitor (true, next)
        → Runs (round ∷ rounds) monitor (true, next)
    goes_on :
        {round : Round X} {rounds : List (Round X)} {monitor next : Monitor X}
        {result : Bool × Monitor X}
        → Handles round monitor (false, next)
        → Runs rounds next result
        → Runs (round ∷ rounds) monitor result

  -- The rounds run as they should, and leave the terminal and the application in step.
  abbrev pub RunsSynced : List (Round X) → Monitor X → Bool × Monitor X → Type 0
  RunsSynced rounds monitor result = Runs rounds monitor result × IsSynced result.1
