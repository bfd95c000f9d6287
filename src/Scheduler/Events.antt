-- ===== src/Scheduler/Events.antt =====
-- `_handle_set_global` and the dispatch of events to their handlers
-- (autosys/scheduler/event_processor.py).
use autosys_clone.Prelude.{
  Bool, true, false, ◌&&◌, ◌||◌, Option, none, some, [], ◌∷◌, Text, codes, lower, is_empty, ◌==◌,
  if◌then◌else◌,
}
use autosys_clone.Status.{StatusValue, on_hold, on_ice, on_noexec, or_inactive}
use autosys_clone.Condition.Eval.{Time, Env}
use autosys_clone.Evaluator.{is_satisfied}
use autosys_clone.Scheduler.Store.{
  Job, Event, EventType, startjob, force_startjob, killjob, job_on_hold, hold_job, job_off_hold,
  job_on_ice, job_off_ice, job_on_noexec, job_off_noexec, mach_online, mach_offline, deletejob,
  stop_demon, change_status, set_global, check_heartbeat, comment, reply_response, alarm,
  release_resource, unhandled, scheduler, up, down, World, sync, status_snapshot, exitcode_snapshot,
  last_times_snapshot, enqueue, set_glob, select,
}
use autosys_clone.Scheduler.Session.{
  M, ◌>>=◌, ◌>>◌, pure, get, modify, raise, for_each, with_row, Processor,
}
use autosys_clone.Scheduler.Box.{is_set}
use autosys_clone.Scheduler.Handlers.{
  Snapshot, handle_startjob, handle_force_startjob, handle_killjob, handle_freeze, handle_on_noexec,
  handle_release, handle_machine, handle_check_heartbeat, handle_deletejob, handle_change_status,
}

-- `needle in text`.
starts_with : Text → Text → Bool
starts_with [] cs = true
starts_with (x ∷ xs) [] = false
starts_with (x ∷ xs) (c ∷ cs) = x == c && starts_with xs cs

contains_text : Text → Text → Bool
unfolding starts_with
contains_text needle [] = is_empty needle
contains_text needle (c ∷ cs) = starts_with needle (c ∷ cs) || contains_text needle cs

mentions_value : Option Text → Bool
unfolding contains_text
mentions_value none = false
mentions_value (some c) = contains_text (codes "value(") (lower c)

-- `(row.status or JobStatus.INACTIVE.value) == "INACTIVE"`: the integer of the column against a
-- text, which are never equal.
abbrev pub value_equals_text : StatusValue → Text → Bool
value_equals_text v text = false

-- The test of the loop over all jobs, behind a new value of a global.
unfoldable pub unblocked : Processor → Env → Job → Bool
unfolding mentions_value or_inactive
unblocked p e row =
    value_equals_text (or_inactive row.status) (codes "INACTIVE")
    && is_set row.condition
    && mentions_value row.condition
    && is_satisfied p.float false e row.condition

-- What a condition is tested against behind a new value: the globals that are stored, and the
-- snapshots of all jobs.
abbrev pub global_env : Time → World → Env
global_env now w = record {
  job_statuses = status_snapshot none w;
  global_vars = w.globs;
  job_exitcodes = exitcode_snapshot none w;
  job_last_times = last_times_snapshot none w;
  now = some now;
}

-- `_handle_set_global`.
unfoldable pub set_global_to : Processor → Time → Text → Text → M (Unit {0})
unfolding unblocked with_row
set_global_to p now name v = do
  modify (set_glob name v)
  modify sync
  w ← get
  for_each (select (λ j. true) w) λ job. with_row job λ row.
      if unblocked p (global_env now w) row
      then modify (enqueue startjob row.job_name scheduler)
      else pure tt

unfoldable pub set_global_checked : Processor → Time → Option Text → Option Text → M (Unit {0})
unfolding set_global_to
set_global_checked p now (some (c ∷ cs)) (some v) = set_global_to p now (c ∷ cs) v
set_global_checked p now name v = pure tt

unfoldable pub handle_set_global : Processor → Event → Time → M (Unit {0})
unfolding set_global_checked
handle_set_global p ev now = set_global_checked p now ev.global_name ev.global_value

-- The table of `_handle_event`. `_handle_comment` reads an attribute `payload` that EventQueueRow
-- does not have, and so raises.
unfoldable pub handler : EventType → Processor → Event → Snapshot → Time → M (Unit {0})
unfolding handle_set_global
handler startjob p ev snapshot now = handle_startjob p ev snapshot now
handler force_startjob p ev snapshot now = handle_force_startjob p ev now
handler killjob p ev snapshot now = handle_killjob ev now
handler job_on_hold p ev snapshot now = handle_freeze on_hold ev
handler hold_job p ev snapshot now = handle_freeze on_hold ev
handler job_off_hold p ev snapshot now = handle_release on_hold ev
handler job_on_ice p ev snapshot now = handle_freeze on_ice ev
handler job_off_ice p ev snapshot now = handle_release on_ice ev
handler job_on_noexec p ev snapshot now = handle_on_noexec ev
handler job_off_noexec p ev snapshot now = handle_release on_noexec ev
handler mach_online p ev snapshot now = modify (handle_machine up ev)
handler mach_offline p ev snapshot now = modify (handle_machine down ev)
handler deletejob p ev snapshot now = handle_deletejob ev
handler stop_demon p ev snapshot now = modify λ w. record w { daemon = false }
handler change_status p ev snapshot now = handle_change_status ev now
handler set_global p ev snapshot now = handle_set_global p ev now
handler check_heartbeat p ev snapshot now = modify (handle_check_heartbeat p ev)
handler comment p ev snapshot now = raise
handler reply_response p ev snapshot now = pure tt
handler alarm p ev snapshot now = pure tt
handler release_resource p ev snapshot now = pure tt
handler unhandled p ev snapshot now = pure tt

unfoldable pub handle_event : Processor → Event → Snapshot → Time → M (Unit {0})
unfolding handler
handle_event p ev snapshot now = handler ev.event_type p ev snapshot now
