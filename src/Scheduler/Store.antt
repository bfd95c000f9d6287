-- ===== src/Scheduler/Store.antt =====
-- The database session of the scheduler (autosys/db/repository.py, autosys/db/connection.py).
-- `live` holds the ORM objects with the attributes as they are now, `saved` the rows as the
-- database has them: a query filters and projects `saved`, while `session.get` and the objects
-- that a query returns are `live`. A session with `autoflush` flushes before each query;
-- `sync_session` makes sessions without it.
pub mod Laws
use autosys_clone.Prelude.{
  ℕ, zero, suc, ◌==◌, ◌+◌, Bool, true, false, not, ◌&&◌, ◌||◌, Option, none, some, List, [], ◌∷◌,
  ◌++◌, map, Text, codes, eq_text, mem_text, lookup, insert, keep, any, upper, if◌then◌else◌, ℤ,
  leb,
}
use autosys_clone.Status.{
  JobStatus, StatusValue, status, norm_status, column_is, eq_value, eq_status, value,
}
use autosys_clone.Condition.Eval.{Time, Env}
use autosys_clone.Scheduler.Clock.{Date}

-- The columns of JobRow that the scheduler reads or writes.
pub record Job : Type 0 where
  pub job_name : Text
  pub job_type : Text
  pub box_name : Option Text
  pub condition : Option Text
  pub run_window : Option Text
  pub box_success : Option Text
  pub box_failure : Option Text
  pub box_terminator : Bool
  pub job_terminator : Bool
  pub date_conditions : Bool
  pub start_times : Option Text
  pub start_mins : Option Text
  pub days_of_week : Option Text
  pub run_calendar : Option Text
  pub exclude_calendar : Option Text
  pub term_run_time : Option ℕ
  pub status : Option StatusValue
  pub last_start : Option Time
  pub last_end : Option Time
  pub last_run_date : Option Date

-- The event types that have a handler, and any other.
pub data EventType : Type 0 where
  startjob force_startjob killjob job_on_hold hold_job job_off_hold job_on_ice : EventType
  job_off_ice job_on_noexec job_off_noexec mach_online mach_offline deletejob : EventType
  stop_demon change_status set_global check_heartbeat comment reply_response : EventType
  alarm release_resource unhandled : EventType

pub data EventSource : Type 0 where
  scheduler cli api agent internal : EventSource

-- EventQueueRow. The list of events is in the order of `created_at`. `stored` is the flag
-- `processed` as the database has it.
pub record Event : Type 0 where
  pub event_id : ℕ
  pub event_type : EventType
  pub job_name : Text
  pub new_status : Option StatusValue
  pub global_name : Option Text
  pub global_value : Option Text
  pub source : EventSource
  pub processed : Bool
  pub stored : Bool

pub data MachineStatus : Type 0 where
  up down unknown : MachineStatus

-- The columns of JobRunRow that bear on conditions.
pub record Run : Type 0 where
  pub run_id : ℕ
  pub job_name : Text
  pub status : StatusValue
  pub exit_code : Option ℤ
  pub start_time : Time

-- The session and the fields of the EventProcessor. `doomed` names the rows that were deleted
-- since the last flush, `new_*` are the objects that were added since.
pub record World : Type 0 where
  pub autoflush : Bool
  pub live : List Job
  pub saved : List Job
  pub doomed : List Text
  pub events : List Event
  pub new_events : List Event
  pub globs : List (Text × Text)
  pub new_globs : List (Text × Text)
  pub machines : List (Text × MachineStatus)
  pub runs : List Run
  pub new_runs : List Run
  pub next_id : ℕ
  pub calendars : List (Text × List Date)
  pub daemon : Bool
  pub waiting : List (Text × Date)
  pub prev_snapshot : Option (List (Text × StatusValue))

abbrev store_event : Event → Event
store_event ev = record ev { stored = ev.processed }

-- `session.flush()`.
unfoldable pub flush : World → World
flush w =
    let rows = keep (λ j. not (mem_text j.job_name w.doomed)) w.live in
    record w {
      live = rows;
      saved = rows;
      doomed = [];
      events = map store_event (w.events ++ w.new_events);
      new_events = [];
      globs = w.globs ++ w.new_globs;
      new_globs = [];
      runs = w.runs ++ w.new_runs;
      new_runs = [];
    }

-- What a query does before it reads.
unfoldable pub sync : World → World
unfolding flush
sync w = if w.autoflush then flush w else w

-- `session.get(JobRow, name)`.
unfoldable pub find_job : Text → List Job → Option Job
find_job name [] = none
find_job name (j ∷ js) = if eq_text j.job_name name then some j else find_job name js

unfoldable pub get_row : World → Text → Option Job
unfolding find_job
get_row w name = find_job name w.live

-- An assignment to attributes of the object of that name.
unfoldable pub set_job : Text → (Job → Job) → List Job → List Job
set_job name f [] = []
set_job name f (j ∷ js) = if eq_text j.job_name name then f j ∷ js else j ∷ set_job name f js

unfoldable pub update_job : Text → (Job → Job) → World → World
unfolding set_job
update_job name f w = record w { live = set_job name f w.live }

-- The names of the rows that a query selects.
unfoldable pub select : (Job → Bool) → World → List Text
select p w = map (λ j. j.job_name) (keep p w.saved)

abbrev pub is_box : Job → Bool
is_box j = eq_text j.job_type (codes "BOX")

-- `(job_type or "").upper() == "BOX"`.
abbrev pub is_box_any_case : Job → Bool
is_box_any_case j = eq_text (upper j.job_type) (codes "BOX")

abbrev in_box : Text → Job → Bool
in_box box j = elim j.box_name [ none ↦ false | some b ↦ eq_text b box ]

-- The queries of JobRepository. The rows of `saved` are in the order of their names.
unfoldable pub get_children : Text → World → List Text
unfolding select
get_children box = select (in_box box)

unfoldable pub get_running_boxes : World → List Text
unfolding select value
get_running_boxes = select (λ j.
    is_box j && (column_is j.status JobStatus.running || column_is j.status JobStatus.activated))

unfoldable pub list_stuck_starting : World → List Text
unfolding select value
list_stuck_starting = select (λ j. not (is_box j) && column_is j.status JobStatus.starting)

-- `build_status_snapshot(session, names)` and `build_last_times_snapshot`: `none` takes all jobs.
abbrev chosen : Option (List Text) → Job → Bool
chosen none j = true
chosen (some names) j = mem_text j.job_name names

unfoldable pub status_snapshot : Option (List Text) → World → List (Text × StatusValue)
unfolding norm_status
status_snapshot names w =
    map (λ j. (j.job_name, norm_status j.status)) (keep (chosen names) w.saved)

unfoldable pub last_times_snapshot : Option (List Text) → World → List (Text × Option Time)
last_times_snapshot names w = map (λ j. (j.job_name, j.last_end)) (keep (chosen names) w.saved)

-- `latest_exit_codes`: of each job the run that started last; the runs of `runs` are in the order
-- of `start_time`.
latest_from : List (Text × Option ℤ) → List Run → List (Text × Option ℤ)
latest_from codes [] = codes
latest_from codes (r ∷ rs) = latest_from (insert r.job_name r.exit_code codes) rs

abbrev chosen_run : Option (List Text) → Run → Bool
chosen_run none r = true
chosen_run (some names) r = mem_text r.job_name names

unfoldable pub exitcode_snapshot : Option (List Text) → World → List (Text × Option ℤ)
unfolding latest_from
exitcode_snapshot names w = latest_from [] (keep (chosen_run names) w.runs)

-- `event_repo.enqueue` of an event with a job's name; the row is pending until a flush.
unfoldable pub enqueue : EventType → Text → EventSource → World → World
enqueue kind name source w =
    let ev : Event = record {
      event_id = w.next_id;
      event_type = kind;
      job_name = name;
      new_status = none;
      global_name = none;
      global_value = none;
      source = source;
      processed = false;
      stored = false;
    } in
    record w { new_events = w.new_events ++ ev ∷ []; next_id = suc w.next_id }

-- `event_repo.dequeue_pending`: the first hundred.
take : ℕ → List Event → List Event
take zero evs = []
take (suc n) [] = []
take (suc n) (ev ∷ evs) = ev ∷ take n evs

unfoldable pub dequeue_pending : World → List Event
unfolding take
dequeue_pending w = take 100 (keep (λ ev. not ev.stored) w.events)

-- `event_repo.mark_processed`.
unfoldable pub mark_processed : ℕ → World → World
mark_processed id w = record w {
  events = map (λ ev. if ev.event_id == id then record ev { processed = true } else ev) w.events;
}

-- `glob_repo.set`: an upsert that finds only rows that are flushed.
unfoldable pub set_glob : Text → Text → World → World
unfolding sync
set_glob name v w =
    let w' = sync w in
    elim (lookup (upper name) w'.globs) [
      | none ↦ record w' { new_globs = w'.new_globs ++ (upper name, v) ∷ [] }
      | some old ↦ record w' { globs = insert (upper name) v w'.globs }
    ]

-- `run_repo.start` and `run_repo.finish`; `finish` finds only rows that are flushed. The clock that
-- `start` reads is taken to show the time of the tick.
unfoldable pub start_run : ℕ → Text → Time → World → World
unfolding value
start_run id name now w =
    let r : Run = record {
      run_id = id;
      job_name = name;
      status = status JobStatus.running;
      exit_code = none;
      start_time = now;
    } in
    record w { new_runs = w.new_runs ++ r ∷ []; next_id = suc id }

unfoldable pub finish_run : ℕ → StatusValue → ℤ → World → World
unfolding sync
finish_run id v code w =
    let w' = sync w in
    record w' {
      runs =
          map (λ r. if r.run_id == id then record r { status = v; exit_code = some code } else r)
            w'.runs;
    }
