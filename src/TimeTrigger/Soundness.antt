-- ===== src/TimeTrigger/Soundness.antt =====
-- When the time trigger fires (`is_triggered` in autosys/scheduler/time_trigger.py) and what step 3
-- of a tick queues (`process_one_tick` in autosys/scheduler/event_processor.py).
use autosys_clone.Prelude.{
  ℕ, ◌≡◌, ◌≢◌, ◌↔◌, ◌⊎◌, inl, inr, Option-cases, refl, Bool, true, false, not, ◌&&◌, ◌||◌, Option,
  none, some, List, [], ◌∷◌, Text, lookup, arith,
}
use autosys_clone.Status.{
  is_startable, or_inactive, norm_in, inactive, success, failure, terminated,
}
use autosys_clone.Condition.Eval.{Time}
use autosys_clone.Scheduler.Clock.{Date, date, epoch_minute}
use autosys_clone.Scheduler.Store.{Job}
use autosys_clone.Scheduler.Box.{is_set}
use autosys_clone.TimeTrigger.Listed.{OnDay, OnDay-iff, AtTime, AtTime-iff, AtMinute, AtMinute-iff}
use autosys_clone.TimeTrigger.{
  Calendars, mem_date, already_fired_this_minute, is_triggered, run_calendar_allows,
  exclude_calendar_allows, should_run_today, matches_start_mins, matches_start_times,
}

-- A run calendar that is named holds the day.
pub data OnCalendar (calendars : Calendars) (today : Date) : Option Text → Type 0 where
  no_calendar : OnCalendar calendars today none
  blank_calendar : OnCalendar calendars today (some [])
  listed :
      {c : ℕ} {cs : Text} (days : List Date)
      → lookup (c ∷ cs) calendars ≡ some days
      → mem_date today days ≡ true
      → OnCalendar calendars today (some (c ∷ cs))

-- An exclude calendar that is named and known does not hold the day.
pub data NotExcluded (calendars : Calendars) (today : Date) : Option Text → Type 0 where
  no_exclusion : NotExcluded calendars today none
  blank_exclusion : NotExcluded calendars today (some [])
  unknown_exclusion :
      {c : ℕ} {cs : Text}
      → lookup (c ∷ cs) calendars ≡ none
      → NotExcluded calendars today (some (c ∷ cs))
  unlisted :
      {c : ℕ} {cs : Text} (days : List Date)
      → lookup (c ∷ cs) calendars ≡ some days
      → mem_date today days ≡ false
      → NotExcluded calendars today (some (c ∷ cs))

-- The last start is in another minute.
pub data Fresh (now : Time) : Option Time → Type 0 where
  never : Fresh now none
  earlier : {last : Time} → epoch_minute last ≢ epoch_minute now → Fresh now (some last)

-- What has to hold of a job whose schedule fires at `now`.
pub record Due (calendars : Calendars) (now : Time) (row : Job) : Type 0 where
  pub startable :
      norm_in (some (or_inactive row.status)) (inactive ∷ success ∷ failure ∷ terminated ∷ [])
      ≡ true
  pub dated : row.date_conditions ≡ true
  pub on_calendar : OnCalendar calendars (date now) row.run_calendar
  pub not_excluded : NotExcluded calendars (date now) row.exclude_calendar
  pub weekday_listed : OnDay (date now) row.days_of_week
  pub minute_listed :
      (is_set row.start_times ≡ true) × AtTime now row.start_times
      ⊎ (is_set row.start_mins ≡ true) × AtMinute now row.start_mins
  pub fresh : Fresh now row.last_start

OnCalendar-iff :
    (calendars : Calendars) (today : Date) (name : Option Text)
    → (run_calendar_allows calendars name today ≡ true) ↔ OnCalendar calendars today name
unfolding run_calendar_allows
OnCalendar-iff calendars today none = ((λ h. no_calendar), (λ c. refl))
OnCalendar-iff calendars today (some []) = ((λ h. blank_calendar), (λ c. refl))
OnCalendar-iff calendars today (some (c ∷ cs)) = (
  (λ h. elim (Option-cases (lookup (c ∷ cs) calendars)) [
    | inl e ↦ absurd (ground arith)
    | inr (days, e) ↦ listed days e (ground arith)
  ]),
  back,
)
  where
    back :
        OnCalendar calendars today (some (c ∷ cs))
        → run_calendar_allows calendars (some (c ∷ cs)) today ≡ true
    back (listed days e m) = ground arith

NotExcluded-iff :
    (calendars : Calendars) (today : Date) (name : Option Text)
    → (exclude_calendar_allows calendars name today ≡ true) ↔ NotExcluded calendars today name
unfolding exclude_calendar_allows
NotExcluded-iff calendars today none = ((λ h. no_exclusion), (λ c. refl))
NotExcluded-iff calendars today (some []) = ((λ h. blank_exclusion), (λ c. refl))
NotExcluded-iff calendars today (some (c ∷ cs)) = (
  (λ h. elim (Option-cases (lookup (c ∷ cs) calendars)) [
    | inl e ↦ unknown_exclusion e
    | inr (days, e) ↦ unlisted days e (ground arith)
  ]),
  back,
)
  where
    back :
        NotExcluded calendars today (some (c ∷ cs))
        → exclude_calendar_allows calendars (some (c ∷ cs)) today ≡ true
    back (unknown_exclusion e) = ground arith
    back (unlisted days e m) = ground arith

Fresh-iff :
    (now : Time) (last : Option Time)
    → (not (already_fired_this_minute last now) ≡ true) ↔ Fresh now last
unfolding already_fired_this_minute
Fresh-iff now none = ((λ h. never), (λ c. refl))
Fresh-iff now (some last) = ((λ h. earlier (ground arith)), back)
  where
    back : Fresh now (some last) → not (already_fired_this_minute (some last) now) ≡ true
    back (earlier n) = ground arith

-- The trigger is the conjunction of its tests; the start minutes or times that match are set.
tests_iff :
    (a b c d e f g h i j : Bool)
    → ((a && b && (c || d) && e && f && g && (c && h || d && i) && j) ≡ true) ↔ (
        (a ≡ true)
        × (b ≡ true)
        × (e ≡ true)
        × (f ≡ true)
        × (g ≡ true)
        × ((c ≡ true) × (h ≡ true) ⊎ (d ≡ true) × (i ≡ true))
        × (j ≡ true))
tests_iff a b c d e f g h i j = ground arith

minute_iff :
    (now : Time) (row : Job)
    → ((is_set row.start_times ≡ true) × (matches_start_times row.start_times now ≡ true)
        ⊎ (is_set row.start_mins ≡ true) × (matches_start_mins row.start_mins now ≡ true))
      ↔ ((is_set row.start_times ≡ true) × AtTime now row.start_times
          ⊎ (is_set row.start_mins ≡ true) × AtMinute now row.start_mins)
minute_iff now row = (
  (λ m. elim m [
    | inl (set, at) ↦ inl (set, (AtTime-iff now row.start_times).0 at)
    | inr (set, at) ↦ inr (set, (AtMinute-iff now row.start_mins).0 at)
  ]),
  (λ m. elim m [
    | inl (set, at) ↦ inl (set, (AtTime-iff now row.start_times).1 at)
    | inr (set, at) ↦ inr (set, (AtMinute-iff now row.start_mins).1 at)
  ]),
)

-- The trigger fires for a job exactly if the job is INACTIVE, SUCCESS, FAILURE or TERMINATED (or has
-- no status) and dated, its run calendar, if it
-- names one, is known and holds the day, its exclude calendar does not hold it, it gives no days or
-- lists all or this weekday by its two letters, one of its start times is the hour and minute of now
-- or one of its start minutes the number of the minute, and its last start is in another minute.
pub is_triggered-Due :
    (calendars : Calendars) (now : Time) (row : Job)
    → (is_triggered calendars now row ≡ true) ↔ Due calendars now row
unfolding is_triggered is_startable
is_triggered-Due calendars now row = (
  (λ h.
      let (s, d, c, x, day, m, f) =
        (tests_iff (is_startable (some (or_inactive row.status))) row.date_conditions
            (is_set row.start_times) (is_set row.start_mins)
            (run_calendar_allows calendars row.run_calendar (date now))
            (exclude_calendar_allows calendars row.exclude_calendar (date now))
            (should_run_today row.days_of_week (date now)) (matches_start_times row.start_times now)
            (matches_start_mins row.start_mins now)
            (not (already_fired_this_minute row.last_start now))).0
          h in
      record {
        startable = s;
        dated = d;
        on_calendar = (OnCalendar-iff calendars (date now) row.run_calendar).0 c;
        not_excluded = (NotExcluded-iff calendars (date now) row.exclude_calendar).0 x;
        weekday_listed = (OnDay-iff (date now) row.days_of_week).0 day;
        minute_listed = (minute_iff now row).0 m;
        fresh = (Fresh-iff now row.last_start).0 f;
      }),
  (λ due.
      (tests_iff (is_startable (some (or_inactive row.status))) row.date_conditions
          (is_set row.start_times) (is_set row.start_mins)
          (run_calendar_allows calendars row.run_calendar (date now))
          (exclude_calendar_allows calendars row.exclude_calendar (date now))
          (should_run_today row.days_of_week (date now)) (matches_start_times row.start_times now)
          (matches_start_mins row.start_mins now)
          (not (already_fired_this_minute row.last_start now))).1
        (
          due.startable,
          due.dated,
          (OnCalendar-iff calendars (date now) row.run_calendar).1 due.on_calendar,
          (NotExcluded-iff calendars (date now) row.exclude_calendar).1 due.not_excluded,
          (OnDay-iff (date now) row.days_of_week).1 due.weekday_listed,
          (minute_iff now row).1 due.minute_listed,
          (Fresh-iff now row.last_start).1 due.fresh,
        )),
)
