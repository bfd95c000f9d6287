-- ===== src/Scheduler/Window/Cycle.antt =====
-- A run window as an arc of the day's circle of minutes (`_in_run_window` in
-- autosys/scheduler/event_processor.py).
use autosys_clone.Prelude.{ℕ, ◌≡◌, ◌↔◌, true, ◌+◌, ◌-◌, ◌%◌, ◌≤◌, ◌<◌, arith}
use autosys_clone.Scheduler.Window.{between}

-- The minutes from `a` forward to `b` on the circle of 1440.
abbrev pub ahead : ℕ → ℕ → ℕ
ahead a b = (b + 1440 - a) % 1440

-- On minutes of the day, a window holds now exactly if now comes, going forward from its start, no
-- later than its end: whether or not the window passes midnight.
pub between-ahead :
    (start end now : ℕ)
    → start < 1440
    → end < 1440
    → now < 1440
    → (between start end now ≡ true) ↔ (ahead start now ≤ ahead start end)
unfolding between
between-ahead start end now s e n = ground arith
