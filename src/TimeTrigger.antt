-- ===== src/TimeTrigger.antt =====
-- The time trigger (autosys/scheduler/time_trigger.py): whether the schedule of a job fires in the
-- minute of `now`.
pub mod Listed
pub mod Soundness
use autosys_clone.Prelude.{
  ℕ, ◌+◌, ◌-◌, ◌*◌, ◌/◌, ◌%◌, Bool, true, false, not, ◌&&◌, ◌||◌, Option, none, some, List, [], ◌∷◌,
  ◌++◌, map, Text, codes, eq_text, mem_text, strip, lower, is_empty, is_digit, keep, any, all,
  length, lookup, ℤ, pos, eqb_ℤ, ◌==◌, leb, if◌then◌else◌,
}
use autosys_clone.Status.{is_startable, or_inactive, status}
use autosys_clone.Condition.Eval.{Time}
use autosys_clone.Scheduler.Clock.{Date, date, epoch_minute, hour, minute, weekday}
use autosys_clone.Scheduler.Store.{Job}
use autosys_clone.Scheduler.Window.{split}
use autosys_clone.Jil.Values.{int_of}
use autosys_clone.Scheduler.Box.{is_set}

abbrev pub Calendars : Type 0
Calendars = List (Text × List Date)

abbrev pub mem_date : Date → List Date → Bool
mem_date d [] = false
mem_date d (x ∷ xs) = d == x || mem_date d xs

-- `_DAY_ABBREV`.
unfoldable pub day_number : Text → Option ℕ
day_number w =
    if eq_text w (codes "mo")
    then some 0
    else if eq_text w (codes "tu")
    then some 1
    else if eq_text w (codes "we")
    then some 2
    else if eq_text w (codes "th")
    then some 3
    else if eq_text w (codes "fr")
    then some 4
    else if eq_text w (codes "sa")
    then some 5
    else if eq_text w (codes "su")
    then some 6
    else none

abbrev pub or_empty : Option Text → Text
or_empty none = []
or_empty (some c) = c

-- The parts of a comma-separated attribute that are not blank, stripped.
unfoldable pub parts : Text → List Text
unfolding split
parts s = keep (λ d. not (is_empty d)) (map strip (split b',' s))

abbrev pub is_day : Option ℕ → ℕ → Bool
is_day none today = false
is_day (some n) today = n == today

-- `_should_run_today`.
unfoldable pub should_run_today : Option Text → Date → Bool
unfolding day_number parts
should_run_today days today =
    let listed = map lower (parts (or_empty days)) in
    not (is_set days)
    || mem_text (codes "all") listed
    || any (λ d. is_day (day_number d) (weekday today)) listed

-- `_already_fired_this_minute`: the same year, month, day, hour and minute.
unfoldable pub already_fired_this_minute : Option Time → Time → Bool
already_fired_this_minute none now = false
already_fired_this_minute (some last) now = epoch_minute last == epoch_minute now

-- The number, where the part is one, is the minute; a sign is allowed, as in "-0".
abbrev pub is_minute : Option ℤ → ℕ → Bool
is_minute none n = false
is_minute (some k) n = eqb_ℤ k (pos n)

-- `_get_matching_start_mins`, as whether there is one.
unfoldable pub matches_start_mins : Option Text → Time → Bool
unfolding parts int_of
matches_start_mins raw now = any (λ m. is_minute (int_of m) (minute now)) (parts (or_empty raw))

-- Two digits, as `strftime("%H:%M")` writes them.
two_digits : ℕ → Text
two_digits n = (b'0' + n / 10) ∷ (b'0' + n % 10) ∷ []

unfoldable pub current_hhmm : Time → Text
unfolding two_digits
current_hhmm now = two_digits (hour now) ++ b':' ∷ two_digits (minute now)

-- `h.zfill(2)` of a text of digits.
zfill : Text → Text
zfill [] = b'0' ∷ b'0' ∷ []
zfill (c ∷ []) = b'0' ∷ c ∷ []
zfill cs = cs

-- `hhmm.partition(":")`: the text before the first colon, and behind it if there is one.
partition : Text → Text × Option Text
partition [] = ([], none)
partition (c ∷ cs) =
    let (head, rest) = partition cs in if c == b':' then ([], some cs) else (c ∷ head, rest)

-- `_zero_pad`.
unfoldable pub zero_pad : Text → Text
unfolding zfill partition is_digit
zero_pad hhmm = elim (partition hhmm).1 [
  | none ↦ hhmm
  | some m ↦
      if not (is_empty (partition hhmm).0) && all is_digit (partition hhmm).0
      then zfill (partition hhmm).0 ++ b':' ∷ m
      else hhmm
]

-- `.strip('"')`.
unfoldable pub drop_quotes : Text → Text
drop_quotes [] = []
drop_quotes (c ∷ cs) = let rest = drop_quotes cs in if c == b'"' then rest else c ∷ cs

unfoldable pub drop_end_quotes : Text → Text
drop_end_quotes [] = []
drop_end_quotes (c ∷ cs) =
    let rest = drop_end_quotes cs in if c == b'"' && is_empty rest then [] else c ∷ rest

-- `_get_matching_start_times`, as whether there is one.
unfoldable pub matches_start_times : Option Text → Time → Bool
unfolding parts zero_pad drop_quotes drop_end_quotes current_hhmm
matches_start_times raw now =
    any (λ t. eq_text (zero_pad (drop_end_quotes (drop_quotes t))) (current_hhmm now))
      (parts (or_empty raw))

-- A run calendar that is missing keeps the job from running.
unfoldable pub run_calendar_allows : Calendars → Option Text → Date → Bool
run_calendar_allows calendars name today =
    not (is_set name)
    || elim (lookup (or_empty name) calendars) [ none ↦ false | some days ↦ mem_date today days ]

-- An exclude calendar that is missing excludes nothing.
unfoldable pub exclude_calendar_allows : Calendars → Option Text → Date → Bool
exclude_calendar_allows calendars name today =
    not (is_set name) || elim (lookup (or_empty name) calendars) [
      | none ↦ true
      | some days ↦ not (mem_date today days)
    ]

-- `is_triggered`.
unfoldable pub is_triggered : Calendars → Time → Job → Bool
unfolding is_startable or_inactive run_calendar_allows exclude_calendar_allows should_run_today
    matches_start_times matches_start_mins already_fired_this_minute
is_triggered calendars now row =
    is_startable (some (or_inactive row.status))
    && row.date_conditions
    && (is_set row.start_times || is_set row.start_mins)
    && run_calendar_allows calendars row.run_calendar (date now)
    && exclude_calendar_allows calendars row.exclude_calendar (date now)
    && should_run_today row.days_of_week (date now)
    && (is_set row.start_times && matches_start_times row.start_times now
        || is_set row.start_mins && matches_start_mins row.start_mins now)
    && not (already_fired_this_minute row.last_start now)

-- `get_triggered_jobs`.
unfoldable pub get_triggered_jobs : Calendars → Time → List Job → List Job
unfolding is_triggered
get_triggered_jobs calendars now rows = keep (is_triggered calendars now) rows
