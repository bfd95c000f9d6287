-- ===== src/Scheduler/Window.antt =====
-- `_in_run_window` (autosys/scheduler/event_processor.py): windows "HH:MM-HH:MM", which may pass
-- midnight. A malformed window is closed.
pub mod Cycle
use autosys_clone.Prelude.{
  ℕ, ◌+◌, ◌-◌, ◌*◌, Bool, true, false, not, ◌&&◌, ◌||◌, Option, none, some, List, [], ◌∷◌, Text,
  strip, is_empty, is_digit, ◌==◌, leb, if◌then◌else◌,
}
use autosys_clone.Condition.Eval.{Time}
use autosys_clone.Scheduler.Clock.{hour, minute}

-- `s.split(sep)`.
unfoldable pub split : ℕ → Text → List Text
split sep [] = [] ∷ []
split sep (c ∷ cs) = elim (split sep cs) [
  | [] ↦ (c ∷ []) ∷ []
  | word ∷ words ↦ if c == sep then [] ∷ word ∷ words else (c ∷ word) ∷ words
]

-- The digits of `int(...)`, with single underscores between them; the flag is set behind a digit.
digits : Bool → ℕ → Text → Option ℕ
unfolding is_digit
digits after n [] = if after then some n else none
digits after n (c ∷ cs) =
    let next = digits (is_digit c) (if is_digit c then n * 10 + (c - b'0') else n) cs in
    if is_digit c || after && c == b'_' then next else none

-- `int(...)` of a part of the window, which holds no minus sign.
unsigned : Text → Option ℕ
unfolding digits
unsigned [] = none
unsigned (c ∷ cs) = if c == b'+' then digits false 0 cs else digits false 0 (c ∷ cs)

unfoldable pub int_of : Text → Option ℕ
unfolding unsigned
int_of s = unsigned (strip s)

-- The hour and the minute of "HH:MM", as minutes; text behind a second colon is ignored.
minutes_of_parts : List Text → Option ℕ
unfolding int_of
minutes_of_parts (h ∷ m ∷ rest) = elim (int_of h) [
  | none ↦ none
  | some hours ↦ elim (int_of m) [ none ↦ none | some minutes ↦ some (hours * 60 + minutes) ]
]
minutes_of_parts parts = none

-- Whether minute `now` of the day lies in the window, whose end belongs to it.
unfoldable pub between : ℕ → ℕ → ℕ → Bool
between start end now =
    if leb start end then leb start now && leb now end else leb start now || leb now end

window_holds : List Text → ℕ → Bool
unfolding minutes_of_parts split between
window_holds (start_str ∷ end_str ∷ []) now = elim (minutes_of_parts (split b':' start_str)) [
  | none ↦ false
  | some start ↦ elim (minutes_of_parts (split b':' end_str)) [
    | none ↦ false
    | some end ↦ between start end now
  ]
]
window_holds parts now = false

unfoldable pub in_run_window : Text → Time → Bool
unfolding window_holds
in_run_window window now =
    is_empty (strip window) || window_holds (split b'-' (strip window)) (hour now * 60 + minute now)

-- `row.run_window and not _in_run_window(...)` keeps a job from starting.
unfoldable pub window_open : Option Text → Time → Bool
window_open none now = true
window_open (some []) now = true
window_open (some (c ∷ cs)) now = in_run_window (c ∷ cs) now
