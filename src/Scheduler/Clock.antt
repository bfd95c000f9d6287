-- ===== src/Scheduler/Clock.antt =====
-- What the scheduler reads of a naive `datetime`: microseconds since the start of a day 0 that is
-- a Monday. `strftime("%Y-%m-%d")` is one text for each day, so a date is the number of its day.
use autosys_clone.Prelude.{ℕ, ◌/◌, ◌%◌}
use autosys_clone.Condition.Eval.{Time}

abbrev pub Date : Type 0
Date = ℕ

abbrev pub date : Time → Date
date t = t / 86400000000

-- The minute of the epoch, the hour of the day, and the minute of the hour.
abbrev pub epoch_minute : Time → ℕ
epoch_minute t = t / 60000000

abbrev pub hour : Time → ℕ
hour t = t / 3600000000 % 24

abbrev pub minute : Time → ℕ
minute t = t / 60000000 % 60

-- `weekday()`: 0 is Monday.
abbrev pub weekday : Date → ℕ
weekday d = d % 7
