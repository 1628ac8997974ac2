-- ===== src/Monitor/Main.antt =====
-- The loop of crates/qup-test-tui/src/main.rs: a round takes the updates that have come, draws when
-- it must, and handles at most one event. What the round meets is its input: the updates in the
-- channel, the clock, the frame's area and the event that was polled. An I/O error of the terminal
-- ends `main` and is left out.
pub mod Synced
use qup.Prelude.{
  ℕ, ◌-◌, ◌*◌, ◌^◌, Bool, true, false, ◌||◌, not, Option, none, some, [], ◌∷◌, List, Bytes, leb,
  is_empty, if◌then◌else◌,
}
use qup.Monitor.Geometry.{Rect, UiGeometry}
use qup.Monitor.App.{App, NetworkEvent, Instant, apply, new_app}
use qup.Monitor.Desk.{CrosstermEvent, InputOutcome, Desk, ignored}
use qup.Monitor.Input.{handle_event}
use qup.Monitor.Screen.{Direction, Constraint, draw_geometry}

-- The variables of the loop; `drawn` is what the terminal was last given to draw.
pub record Monitor (X : Type 0) : Type 0 where
  pub desk : Desk X
  pub geometry : UiGeometry
  pub last_clock_redraw : Instant
  pub needs_redraw : Bool
  pub drawn : Option (App X)

pub record Round (X : Type 0) : Type 0 where
  pub updates : List (NetworkEvent X)
  pub now : Instant
  pub frame_area : Rect
  pub event : Option CrosstermEvent

-- One second, in nanoseconds.
abbrev pub last_read_tick : ℕ
last_read_tick = 10 ^ 9

module _ {X : Type 0} where
  unfoldable pub apply_updates : List (NetworkEvent X) → App X → App X
  unfolding apply
  apply_updates [] app = app
  apply_updates (update ∷ updates) app = apply_updates updates (apply update app)

  -- The `while let`.
  abbrev pub receive_updates : List (NetworkEvent X) → Monitor X → Monitor X
  receive_updates updates monitor = record monitor {
    desk = record monitor.desk { app = apply_updates updates monitor.desk.app };
    needs_redraw = monitor.needs_redraw || not (is_empty updates);
  }

  abbrev pub tick : Instant → Monitor X → Monitor X
  tick now monitor =
      if leb last_read_tick (now - monitor.last_clock_redraw)
      then record monitor { last_clock_redraw = now; needs_redraw = true }
      else monitor

  -- `if let Some(event) = poll_input(…)?`, and whether the loop ends.
  abbrev pub handle_polled : Option CrosstermEvent → Monitor X → Bool × Monitor X
  handle_polled none monitor = (false, monitor)
  handle_polled (some event) monitor =
      let (outcome, desk) = handle_event monitor.geometry event monitor.desk in
      let needs_redraw = monitor.needs_redraw || outcome.needs_redraw in
      (outcome.quit, record monitor { desk = desk; needs_redraw = needs_redraw })

  unfoldable pub start : Bytes → ℕ → Instant → Monitor X
  start addr retry_secs now = record {
    desk = record { app = new_app addr retry_secs; commands = []; received = true };
    geometry = record { table = none; modal = none };
    last_clock_redraw = now;
    needs_redraw = true;
    drawn = none;
  }

module _ (inner : Rect → Rect) (new_rect : ℕ → ℕ → ℕ → ℕ → Rect)
    (split : Direction → List Constraint → Rect → ℕ → Rect) {X : Type 0} where
  abbrev pub redraw_screen : Rect → Monitor X → Monitor X
  redraw_screen frame_area monitor =
      if monitor.needs_redraw
      then record monitor {
        geometry = draw_geometry inner new_rect split frame_area monitor.desk.app;
        needs_redraw = false;
        drawn = some monitor.desk.app;
      }
      else monitor

  -- A round up to the poll.
  unfoldable pub before_poll : Round X → Monitor X → Monitor X
  unfolding apply_updates draw_geometry
  before_poll round monitor =
      redraw_screen round.frame_area (tick round.now (receive_updates round.updates monitor))

  -- The body of the loop.
  unfoldable pub main_round : Round X → Monitor X → Bool × Monitor X
  unfolding before_poll handle_event
  main_round round monitor = handle_polled round.event (before_poll round monitor)

  -- The rounds until the loop is left, or the input given here ends.
  unfoldable pub main_loop : List (Round X) → Monitor X → Bool × Monitor X
  unfolding main_round
  main_loop [] monitor = (false, monitor)
  main_loop (round ∷ rounds) monitor =
      let (quit, next) = main_round round monitor in
      let rest = main_loop rounds next in if quit then (true, next) else rest
