-- ===== src/Tests/Sample.antt =====
-- A session with a box that runs and two jobs in it, and what else the tests need.
use autosys_clone.Prelude.{true, false, none, some, List, [], ◌∷◌, Text, codes}
use autosys_clone.Status.{running, success, failure, terminated, status}
use autosys_clone.Condition.Eval.{FloatText}
use autosys_clone.Scheduler.Store.{Job, Event, EventType, killjob, cli, World}
use autosys_clone.Scheduler.Session.{Processor}
use autosys_clone.Scheduler.Handlers.{put_status}

-- A `float` that knows no text as a number.
abbrev pub no_floats : FloatText
no_floats = record { float_lt = λ a b. none; float_le = λ a b. none }

abbrev pub command : Job
command = record {
  job_name = codes "a";
  job_type = codes "CMD";
  box_name = some (codes "box");
  condition = some (codes "value(X) = 1");
  run_window = none;
  box_success = none;
  box_failure = none;
  box_terminator = false;
  job_terminator = true;
  date_conditions = true;
  start_times = none;
  start_mins = some (codes "0");
  days_of_week = none;
  run_calendar = none;
  exclude_calendar = none;
  term_run_time = none;
  status = some (status running);
  last_start = none;
  last_end = none;
  last_run_date = none;
}

abbrev pub box : Job
box = record command {
  job_name = codes "box";
  job_type = codes "BOX";
  box_name = none;
  condition = none;
  status = some (status terminated);
}

abbrev pub finished : Job
finished = record command { status = some (status success); condition = none }

abbrev pub idle : Job
idle = record command { status = none }

abbrev pub processor : Processor
processor = record {
  float = no_floats;
  auto_complete = false;
  dispatch = put_status running;
  dispatch_raises = λ j. false;
  nesting = 300;
  heartbeat = λ name. true;
}

abbrev pub session_of : List Job → World
session_of jobs = record {
  autoflush = false;
  live = jobs;
  saved = jobs;
  doomed = [];
  events = [];
  new_events = [];
  globs = [];
  new_globs = [];
  machines = [];
  runs = [];
  new_runs = [];
  next_id = 7;
  calendars = [];
  daemon = true;
  waiting = [];
  prev_snapshot = none;
}

abbrev pub session : World
session = session_of (command ∷ box ∷ [])

abbrev pub idle_session : World
idle_session = session_of (idle ∷ [])

abbrev pub event_for : EventType → Text → Event
event_for kind name = record {
  event_id = 1;
  event_type = kind;
  job_name = name;
  new_status = some (status failure);
  global_name = some (codes "X");
  global_value = some (codes "1");
  source = cli;
  processed = false;
  stored = false;
}

abbrev pub queued : World
queued = record session { events = event_for killjob (codes "a") ∷ [] }
