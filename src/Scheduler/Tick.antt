-- ===== src/Scheduler/Tick.antt =====
-- `process_one_tick`, `_start_ready_dependents` and the loop of `run_forever`
-- (autosys/scheduler/event_processor.py), for a processor with neither alarm manager nor failure
-- injector.
pub mod Boxes
pub mod Handlers
pub mod Stale
use autosys_clone.Prelude.{
  ℕ, zero, suc, ◌+◌, Bool, true, false, not, ◌&&◌, ◌||◌, Option, none, some, List, [], ◌∷◌, map,
  Text, eq_text, mem_text, lookup, keep, any, is_some, ◌==◌, get_or_default, if◌then◌else◌, length,
}
use autosys_clone.Status.{
  StatusValue, status, unlisted, success, running, on_noexec, eq_status, value, column_is,
  is_startable,
}
use autosys_clone.Condition.Eval.{Time, Env}
use autosys_clone.Evaluator.{is_satisfied, referenced_job_names}
use autosys_clone.TimeTrigger.{get_triggered_jobs}
use autosys_clone.Scheduler.Clock.{Date, date}
use autosys_clone.Scheduler.Store.{
  Job, Event, EventType, startjob, force_startjob, EventSource, scheduler, internal, World, flush,
  sync, get_row, select, list_stuck_starting, status_snapshot, exitcode_snapshot,
  last_times_snapshot, enqueue, dequeue_pending, mark_processed,
}
use autosys_clone.Scheduler.Session.{
  M, ◌>>=◌, ◌>>◌, pure, get, modify, attempt, for_each, rows, with_row, assign, Processor,
  call_dispatch,
}
use autosys_clone.Scheduler.Box.{ended, box_tick}
use autosys_clone.Scheduler.Activate.{auto_finish}
use autosys_clone.Scheduler.Handlers.{Snapshot, check_term_run_time}
use autosys_clone.Scheduler.Events.{handle_event}

abbrev same_value : Option StatusValue → StatusValue → Bool
unfolding value
same_value none v = false
same_value (some (status s)) (status t) = eq_status s t
same_value (some (unlisted n)) (unlisted m) = n == m
same_value (some a) b = false

-- `{n for n, s in after.items() if before.get(n) != s}`.
unfoldable pub changed_names : Snapshot → Snapshot → List Text
unfolding value
changed_names before [] = []
changed_names before ((name, v) ∷ after) =
    let rest = changed_names before after in
    if same_value (lookup name before) v then rest else name ∷ rest

is_start : EventType → Bool
is_start startjob = true
is_start force_startjob = true
is_start kind = false

-- The jobs that a stored event is about to start.
unfoldable pub already_queued : World → List Text
unfolding is_start
already_queued w =
    map (λ ev. ev.job_name) (keep (λ ev. not ev.stored && is_start ev.event_type) w.events)

-- A timed job waits for its start time first.
waits_today : World → Time → Text → Bool
waits_today w now name = elim (lookup name w.waiting) [ none ↦ false | some day ↦ day == date now ]

dependent_env : Snapshot → Time → List Text → World → Env
dependent_env snapshot now refs w = record {
  job_statuses = snapshot;
  global_vars = [];
  job_exitcodes = exitcode_snapshot (some refs) w;
  job_last_times = last_times_snapshot (some refs) w;
  now = some now;
}

-- The tests on one row of the query, in the order of the loop.
unfoldable pub is_ready : Processor → Snapshot → Time → List Text → List Text → World → Job → Bool
unfolding waits_today dependent_env is_startable value
is_ready p after now changed already w j =
    not (mem_text j.job_name already)
    && (not j.date_conditions || waits_today w now j.job_name)
    && (is_startable j.status || column_is j.status on_noexec)
    && any (λ name. mem_text name changed) (referenced_job_names j.condition)
    && is_satisfied p.float false (dependent_env after now (referenced_job_names j.condition) w)
        j.condition

-- `_start_ready_dependents`.
unfoldable pub start_ready_dependents : Processor → Snapshot → Snapshot → Time → M (Unit {0})
unfolding changed_names already_queued is_ready
start_ready_dependents p before after now =
    let changed = changed_names before after in
    if not (any (λ name. true) changed) then pure tt else do
      modify sync
      w ← get
      let top = keep (λ j. not (is_some j.box_name) && is_some j.condition) w.saved
      for_each (keep (is_ready p after now changed (already_queued w) w) top)
          λ j. modify (enqueue startjob j.job_name internal)

-- Handling an event, whatever it raises, and marking it.
unfoldable pub process_event : Processor → Snapshot → Time → World → Event → World
unfolding attempt
process_event p snapshot now w ev =
    mark_processed ev.event_id (attempt (handle_event p ev snapshot now) w)

unfoldable pub process_events : Processor → Snapshot → Time → World → List Event → World
unfolding process_event
process_events p snapshot now w [] = w
process_events p snapshot now w (ev ∷ evs) =
    process_events p snapshot now (process_event p snapshot now w ev) evs

-- Step 2.5: a job that is stored as STARTING is dispatched again.
redispatch : Processor → Time → World → List Text → World
unfolding attempt with_row auto_finish
redispatch p now w [] = w
redispatch p now w (name ∷ names) =
    let w' = attempt (with_row name (call_dispatch p)) w in
    redispatch p now (attempt (assign name (auto_finish p now)) w') names

-- Step 3: the jobs with start times whose schedule fires.
unfoldable pub list_schedulable : World → List Text
unfolding select
list_schedulable = select (λ j. is_some j.start_times)

unfoldable pub time_triggers : Time → World → World
unfolding get_triggered_jobs list_schedulable rows attempt for_each
time_triggers now w =
    let w' = sync w in
    attempt
      (for_each (get_triggered_jobs w'.calendars now (rows w' (list_schedulable w')))
        λ j. modify (enqueue startjob j.job_name scheduler))
      w'

-- The first steps behind the events: boxes, re-dispatch, and the run time limit.
unfoldable pub settle : Processor → Time → World → World
unfolding redispatch attempt
settle p now w =
    let w1 = sync w in
    let w2 = sync (attempt (box_tick p now (status_snapshot none w1)) w1) in
    let w3 = sync (redispatch p now w2 (list_stuck_starting w2)) in
    sync (attempt (check_term_run_time now) w3)

-- All steps behind the events, in their order: dependents and the time triggers come last.
unfoldable pub after_events : Processor → Snapshot → Time → World → World
unfolding settle time_triggers attempt
after_events p first now w =
    let w4 = settle p now w in
    let snapshot = status_snapshot none w4 in
    let before = get_or_default first w4.prev_snapshot in
    let w5 = attempt (start_ready_dependents p before snapshot now) w4 in
    time_triggers now (record w5 { prev_snapshot = some snapshot })

-- `process_one_tick`, with the number of events processed.
unfoldable pub process_one_tick : Processor → Time → World → World × ℕ
unfolding process_events after_events
process_one_tick p now w =
    let w0 = sync w in
    let snapshot = status_snapshot none w0 in
    let pending = dequeue_pending w0 in
    (after_events p snapshot now (process_events p snapshot now w0 pending), length pending)

-- `run_forever`: a tick and a commit at each of the given times, until the daemon is stopped.
unfoldable pub run_forever : Processor → List Time → World → World
unfolding process_one_tick
run_forever p [] w = w
run_forever p (now ∷ times) w =
    let rest = run_forever p times (flush (process_one_tick p now w).0) in
    if w.daemon then rest else w
