-- ===== src/Alarm.antt =====
-- The alarm manager (autosys/notifications/alarm_manager.py). The messages and the random ids of
-- the alarms are left out.
pub mod Checks
pub mod Deadlines
pub mod Fresh
pub mod Notice
use autosys_clone.Prelude.{
  ℤ, pos_part, neg_part, ℕ, ◌+◌, ◌-◌, ◌*◌, Bool, true, false, not, ◌&&◌, ◌||◌, Option, none, some,
  List, [], ◌∷◌, ◌++◌, Text, codes, eq_text, lt_text, mem_text, is_empty, strip, keep, any, map,
  ◌==◌, leb, ltb, if◌then◌else◌,
}
use autosys_clone.Status.{
  JobStatus, StatusValue, status, failure, terminated, running, success, starting, inactive,
  column_is, norm_status, eq_value, norm_in,
}
use autosys_clone.Condition.Eval.{Time}
use autosys_clone.Scheduler.Clock.{Date, date, hour, minute}
use autosys_clone.Scheduler.Window.{split}
use autosys_clone.Jil.Values.{int_of}
use autosys_clone.Alarm.Deadlines.{parse_must_times, times_passed}
use autosys_clone.TimeTrigger.{current_hhmm, drop_quotes, drop_end_quotes}

-- The columns of JobRow that the alarms read.
pub record Watched : Type 0 where
  pub job_name : Text
  pub status : Option StatusValue
  pub alarm_if_fail : Bool
  pub alarm_if_terminated : Bool
  pub max_run_alarm : Option ℕ
  pub min_run_alarm : Option ℕ
  pub must_start_times : Option Text
  pub must_complete_times : Option Text
  pub start_times : Option Text
  pub machine : Option Text
  pub last_start : Option Time
  pub last_run_date : Option Date

-- The columns of JobRunRow that the alarms read.
pub record Run : Type 0 where
  pub run_id : ℕ
  pub job_name : Text
  pub status : Option StatusValue
  pub start_time : Option Time
  pub end_time : Option Time

pub data AlarmType : Type 0 where
  alarm_if_fail alarm_if_terminated max_run_alarm min_run_alarm : AlarmType
  heartbeat_fail must_start_alarm must_complete_alarm : AlarmType

unfoldable pub type_code : AlarmType → ℕ
type_code alarm_if_fail = 0
type_code alarm_if_terminated = 1
type_code max_run_alarm = 2
type_code min_run_alarm = 3
type_code heartbeat_fail = 4
type_code must_start_alarm = 5
type_code must_complete_alarm = 6

abbrev pub eq_type : AlarmType → AlarmType → Bool
eq_type a b = type_code a == type_code b

-- AlarmRow.
pub record Alarm : Type 0 where
  pub job_name : Text
  pub run_id : Option ℕ
  pub alarm_type : AlarmType
  pub job_status_at_raise : Option StatusValue
  pub raised_at : Time
  pub cleared_at : Option Time
  pub cleared_by : Option Text

-- The database that an evaluation reads: the objects of the jobs, the rows that the queries see,
-- the names of the machines that are down, the runs, and the rows of the alarms. An alarm that is
-- added is in `added` until the session is flushed: the session does not flush before a query.
pub record Board : Type 0 where
  pub jobs : List Watched
  pub rows : List Watched
  pub down : List Text
  pub runs : List Run
  pub alarms : List Alarm
  pub added : List Alarm

abbrev pub eq_run : Option ℕ → Option ℕ → Bool
eq_run none run = true
eq_run (some n) none = false
eq_run (some n) (some m) = n == m

abbrev pub is_active : Alarm → Bool
is_active a = elim a.cleared_at [ none ↦ true | some t ↦ false ]

-- `_has_active_alarm`.
unfoldable pub has_active_alarm : Board → Text → AlarmType → Option ℕ → Bool
unfolding type_code
has_active_alarm b name type run =
    any
      (λ a.
        eq_text a.job_name name && eq_type a.alarm_type type && is_active a && eq_run run a.run_id)
      b.alarms

-- `_raise_alarm`. The manager's own clock, which `raised_at` is read from, is taken to show the time
-- of the evaluation.
unfoldable pub raise_alarm : Time → Text → AlarmType → Option ℕ → Option StatusValue → Board → Board
raise_alarm now name type run at b = record b {
  added =
      b.added
      ++ (record {
        job_name = name;
        run_id = run;
        alarm_type = type;
        job_status_at_raise = at;
        raised_at = now;
        cleared_at = none;
        cleared_by = none;
      })
        ∷ [];
}

-- An alarm where a test holds and none is active.
unfoldable pub raise_if :
    Bool → Time → Text → AlarmType → Option ℕ → Option StatusValue → Board → Board
unfolding has_active_alarm raise_alarm
raise_if due now name type run at b =
    if due && not (has_active_alarm b name type run) then raise_alarm now name type run at b else b

-- The minutes between two times are more, and are fewer, than a number.
abbrev longer : Time → Time → ℕ → Bool
longer from to minutes = ltb (from + 60000000 * minutes) to

abbrev shorter : Time → Time → ℕ → Bool
shorter from to minutes = ltb to (from + 60000000 * minutes)

-- The limit is set and not 0, and the job has run longer.
unfoldable pub ran_too_long : Time → Option Time → Option ℕ → Bool
ran_too_long now (some start) (some limit) = ltb 0 limit && longer start now limit
ran_too_long now _ _ = false

-- `_check_job`.
unfoldable pub check_job : Time → Watched → Board → Board
unfolding raise_if norm_status ran_too_long
check_job now j b =
    raise_if
      (eq_value (norm_status j.status) running && ran_too_long now j.last_start j.max_run_alarm) now
      j.job_name max_run_alarm none (some (status running))
      (raise_if (eq_value (norm_status j.status) terminated && j.alarm_if_terminated) now j.job_name
        alarm_if_terminated none (some (status terminated))
        (raise_if (eq_value (norm_status j.status) failure && j.alarm_if_fail) now j.job_name
          alarm_if_fail none (some (status failure)) b))

abbrev pub is_given {ℓ} : {A : Type ℓ} → Option A → Bool
is_given none = false
is_given (some a) = true

-- The jobs that `evaluate` selects.
unfoldable pub may_alarm : Watched → Bool
may_alarm j =
    (column_is j.status failure && j.alarm_if_fail)
    || (column_is j.status terminated && j.alarm_if_terminated)
    || (column_is j.status running && is_given j.max_run_alarm)

-- The objects of the rows that a query selects.
unfoldable pub find_watched : Text → List Watched → List Watched
find_watched name [] = []
find_watched name (j ∷ js) = if eq_text j.job_name name then j ∷ [] else find_watched name js

unfoldable pub objects : List Watched → List Watched → List Watched
unfolding find_watched
objects jobs [] = []
objects jobs (r ∷ rs) = find_watched r.job_name jobs ++ objects jobs rs

abbrev pub selected : (Watched → Bool) → Board → List Watched
unfolding objects
selected p b = objects b.jobs (keep p b.rows)

-- A check of each of some rows.
abbrev pub each {ℓ} : {A : Type ℓ} → (A → Board → Board) → List A → Board → Board
each f [] b = b
each f (x ∷ xs) b = each f xs (f x b)

-- `timedelta(minutes=5)`: the runs that ended no longer ago, of jobs with a least run time.
unfoldable pub ended_recently : Time → Option Time → Bool
ended_recently now none = false
ended_recently now (some end) = leb now (end + 60000000 * 5)

abbrev has_least : Watched → Bool
has_least j = elim j.min_run_alarm [ none ↦ false | some n ↦ ltb 0 n ]

unfoldable pub recent_runs : Time → Board → List Run
unfolding ended_recently
recent_runs now b =
    keep
      (λ r.
        any (λ j. eq_text j.job_name r.job_name && has_least j) b.rows
        && ended_recently now r.end_time)
      b.runs

unfoldable pub ran_too_short : Option Time → Option Time → Option ℕ → Bool
ran_too_short (some start) (some end) (some least) = ltb 0 least && shorter start end least
ran_too_short _ _ _ = false

abbrev or_success : Option StatusValue → Option StatusValue
or_success none = some (status success)
or_success (some s) = some s

unfoldable pub check_run : Time → Run → Watched → Board → Board
unfolding raise_if ran_too_short
check_run now r j b =
    raise_if (ran_too_short r.start_time r.end_time j.min_run_alarm) now j.job_name min_run_alarm
      (some r.run_id) (or_success r.status) b

-- `_check_min_run`.
unfoldable pub check_min_run : Time → Board → Board
unfolding recent_runs check_run find_watched
check_min_run now b =
    each (λ r b'. each (check_run now r) (find_watched r.job_name b.jobs) b') (recent_runs now b) b

-- `_must_time_deadline_passed`.
unfoldable pub must_time_deadline_passed : Watched → Text → Time → Bool
unfolding parse_must_times times_passed
must_time_deadline_passed j raw now = times_passed j.start_times now (parse_must_times raw)

abbrev ran_today : Time → Watched → Bool
ran_today now j = elim j.last_run_date [ none ↦ false | some d ↦ d == date now ]

abbrev pub deadline_passed : Watched → Option Text → Time → Bool
deadline_passed j none now = false
deadline_passed j (some raw) now = not (is_empty raw) && must_time_deadline_passed j raw now

-- `_check_must_start`.
unfoldable pub must_start : Time → Watched → Board → Board
unfolding raise_if must_time_deadline_passed
must_start now j b =
    raise_if (not (ran_today now j) && deadline_passed j j.must_start_times now) now j.job_name
      must_start_alarm none j.status b

unfoldable pub check_must_start : Time → Board → Board
unfolding must_start objects
check_must_start now b = each (must_start now) (selected (λ j. is_given j.must_start_times) b) b

-- `_check_must_complete`.
unfoldable pub must_complete : Time → Watched → Board → Board
unfolding raise_if must_time_deadline_passed norm_status
must_complete now j b =
    raise_if
      (ran_today now j
        && not (norm_in j.status (success ∷ failure ∷ terminated ∷ []))
        && deadline_passed j j.must_complete_times now)
      now j.job_name must_complete_alarm none j.status b

unfoldable pub check_must_complete : Time → Board → Board
unfolding must_complete objects
check_must_complete now b =
    each (must_complete now) (selected (λ j. is_given j.must_complete_times) b) b

abbrev pub runs_on : Text → Watched → Bool
runs_on m j =
    (elim j.machine [ none ↦ false | some n ↦ eq_text n m ])
    && (column_is j.status running || column_is j.status starting)

unfoldable pub unreachable : Time → Watched → Board → Board
unfolding raise_if
unreachable now j b = raise_if true now j.job_name heartbeat_fail none j.status b

-- `_check_machines`.
unfoldable pub check_machines : Time → Board → Board
unfolding unreachable objects
check_machines now b = each (λ m b'. each (unreachable now) (selected (runs_on m) b') b') b.down b

abbrev succeeded : List Watched → Text → Bool
succeeded rows name = any (λ j. eq_text j.job_name name && column_is j.status success) rows

unfoldable pub resolve : Time → List Watched → Alarm → Alarm
unfolding type_code
resolve now rows a =
    if eq_type a.alarm_type alarm_if_fail && is_active a && succeeded rows a.job_name
    then record a { cleared_at = some now; cleared_by = some (codes "auto") }
    else a

-- `_auto_resolve`.
unfoldable pub auto_resolve : Time → Board → Board
unfolding resolve
auto_resolve now b = record b { alarms = map (resolve now b.rows) b.alarms }

unfoldable pub check_jobs : Time → Board → Board
unfolding check_job may_alarm objects
check_jobs now b = each (check_job now) (selected may_alarm b) b

-- `evaluate`: the alarms that it returns are the ones that it adds.
unfoldable pub evaluate : Time → Board → Board
unfolding check_jobs check_machines check_min_run check_must_start check_must_complete auto_resolve
evaluate now b = auto_resolve now (
    check_must_complete now
      (check_must_start now (check_min_run now (check_machines now (check_jobs now b)))))
