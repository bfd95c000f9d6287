-- ===== src/Alarm/Deadlines.antt =====
-- Deadlines of jobs (`_parse_must_times`, `_nearest_preceding_start_minutes` and
-- `_must_time_deadline_passed` of autosys/notifications/alarm_manager.py).
pub mod Latest
use autosys_clone.Prelude.{
  ℤ, pos_part, neg_part, ℕ, ◌+◌, ◌*◌, Bool, false, not, ◌&&◌, Option, none, some, List, [], ◌∷◌,
  Text, lt_text, is_empty, strip, keep, any, map, ◌==◌, leb, if◌then◌else◌,
}
use autosys_clone.Condition.Eval.{Time}
use autosys_clone.Scheduler.Clock.{hour, minute}
use autosys_clone.Scheduler.Window.{split}
use autosys_clone.Jil.Values.{int_of}
use autosys_clone.TimeTrigger.{current_hhmm, drop_quotes, drop_end_quotes}

-- `_parse_must_times`: the minutes behind the start, or the times of the day.
pub data MustTimes : Type 0 where
  relative : ℤ → MustTimes
  absolute : List Text → MustTimes

abbrev or_none : Option ℤ → MustTimes
or_none none = absolute []
or_none (some n) = relative n

unfoldable pub parse_stripped : Text → MustTimes
unfolding int_of split drop_quotes drop_end_quotes
parse_stripped [] = absolute []
parse_stripped (c ∷ cs) =
    if c == b'+'
    then or_none (int_of (strip cs))
    else absolute (
        map (λ t. drop_end_quotes (drop_quotes (strip t)))
          (keep (λ t. not (is_empty (strip t))) (split b',' (c ∷ cs))))

unfoldable pub parse_must_times : Text → MustTimes
unfolding parse_stripped
parse_must_times raw = parse_stripped (strip raw)

-- The minutes of "H:M", as what is added and what is taken away.
abbrev pub Minutes : Type 0
Minutes = ℕ × ℕ

minutes_sum : Option ℤ → Option ℤ → Option Minutes
minutes_sum (some h) (some m) = some (60 * pos_part h + pos_part m, 60 * neg_part h + neg_part m)
minutes_sum _ _ = none

unfoldable pub start_minutes : List Text → Option Minutes
unfolding minutes_sum int_of
start_minutes (h ∷ m ∷ []) = minutes_sum (int_of (strip h)) (int_of (strip m))
start_minutes _ = none

abbrev pub minutes_leb : Minutes → Minutes → Bool
minutes_leb (p, n) (q, m) = leb (p + m) (q + n)

-- The later of a time that is not behind `now` and the best so far.
unfoldable pub better : ℕ → Option Minutes → Option Minutes → Option Minutes
better now none best = best
better now (some c) none = if minutes_leb c (now, 0) then some c else none
better now (some c) (some d) = if minutes_leb c (now, 0) && minutes_leb d c then some c else some d

-- `_nearest_preceding_start_minutes`.
unfoldable pub nearest_start : ℕ → List Text → Option Minutes
unfolding better start_minutes split drop_quotes drop_end_quotes
nearest_start now [] = none
nearest_start now (t ∷ ts) =
    better now (start_minutes (split b':' (drop_end_quotes (drop_quotes (strip t)))))
      (nearest_start now ts)

abbrev or_empty : Option Text → Text
or_empty none = []
or_empty (some t) = t

unfoldable pub relative_passed : ℤ → ℕ → Option Minutes → Bool
relative_passed n now none = false
relative_passed n now (some (p, m)) = leb (p + pos_part n) (now + m + neg_part n)

unfoldable pub times_passed : Option Text → Time → MustTimes → Bool
unfolding relative_passed nearest_start split current_hhmm lt_text
times_passed starts now (relative n) =
    let minutes = hour now * 60 + minute now in
    relative_passed n minutes (nearest_start minutes (split b',' (or_empty starts)))
times_passed starts now (absolute ts) =
    any (λ t. not (is_empty t) && not (lt_text (current_hhmm now) t)) ts
