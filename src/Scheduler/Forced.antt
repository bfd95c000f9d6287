-- ===== src/Scheduler/Forced.antt =====
-- The run that a forced status records (`_handle_change_status` in
-- autosys/scheduler/event_processor.py), and the time triggers of a tick.
use autosys_clone.Prelude.{
  ◌≡◌, refl, Bool, true, false, ◌||◌, none, some, List, [], ◌∷◌, ◌++◌, keep, All, is_some,
}
use autosys_clone.Status.{JobStatus, success, failure, terminated, running, status, value, eq_value}
use autosys_clone.Condition.Eval.{Time}
use autosys_clone.TimeTrigger.{get_triggered_jobs}
use autosys_clone.Scheduler.Store.{
  Job, Run, Event, World, sync, get_row, update_job, select, start_run, finish_run,
}
use autosys_clone.Scheduler.Session.{world_of, with_row_found, for_each, rows, attempt}
use autosys_clone.Scheduler.Handlers.{handle_change_status, force_status}
use autosys_clone.Scheduler.Tick.{list_schedulable, time_triggers}

-- A run as `run_repo.start` makes it.
abbrev pub open_run : Event → Time → World → Run
open_run ev now w = record {
  run_id = w.next_id;
  job_name = ev.job_name;
  status = status running;
  exit_code = none;
  start_time = now;
}

abbrev pub ends_run : JobStatus → Bool
ends_run s =
    eq_value (status s) success || eq_value (status s) failure || eq_value (status s) terminated

-- CHANGE_STATUS to SUCCESS, FAILURE or TERMINATED records a run of the job. In a session that does
-- not flush before it queries that run stays RUNNING without an exit code, since the assignment of
-- its end does not find it.
pub handle_change_status-new_runs :
    (ev : Event) (now : Time) (w : World) (row : Job) (s : JobStatus)
    → w.autoflush ≡ false
    → get_row w ev.job_name ≡ some row
    → ev.new_status ≡ some (status s)
    → ends_run s ≡ true
    → (world_of (handle_change_status ev now w)).new_runs ≡ w.new_runs ++ open_run ev now w ∷ []
unfolding handle_change_status force_status value finish_run sync start_run update_job
handle_change_status-new_runs ev now w row s manual found asked ends =
    rw (with_row_found ev.job_name _ w found) (rw (asked, ends, manual) refl)

-- No job has start times.
keep-none :
    (js : List Job) → All (λ j. j.start_times ≡ none) js → keep (λ j. is_some j.start_times) js ≡ []
keep-none [] h = refl
keep-none (j ∷ js) (e, h) = rw (e, keep-none js h) refl

-- Step 3 of a tick does nothing where no stored job has start times, whatever start minutes the
-- jobs have.
pub time_triggers-start_mins :
    (now : Time) (w : World)
    → All (λ j. j.start_times ≡ none) (sync w).saved
    → time_triggers now w ≡ sync w
unfolding time_triggers list_schedulable select rows get_triggered_jobs attempt for_each
time_triggers-start_mins now w bare = rw (keep-none (sync w).saved bare) refl
