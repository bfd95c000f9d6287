-- ===== src/Scheduler/Handlers.antt =====
-- The event handlers of the EventProcessor (autosys/scheduler/event_processor.py).
use autosys_clone.Prelude.{
  zero, ◌-◌, ◌*◌, Bool, true, false, not, ◌&&◌, ◌||◌, none, some, List, [], ◌∷◌, Text, insert,
  erase, lookup, ltb, ◌==◌, is_empty, if◌then◌else◌, ℤ, pos,
}
use autosys_clone.Status.{
  JobStatus, success, failure, terminated, on_ice, inactive, activated, starting, running,
  on_noexec, StatusValue, status, unlisted, norm_status, norm_in, column_is, eq_value, or_inactive,
  validate_transition, is_startable, value,
}
use autosys_clone.Condition.Eval.{Time, Env}
use autosys_clone.Evaluator.{is_satisfied, referenced_job_names}
use autosys_clone.Scheduler.Clock.{date}
use autosys_clone.Scheduler.Store.{
  Job, Event, EventSource, scheduler, MachineStatus, up, down, World, sync, select, is_box,
  exitcode_snapshot, last_times_snapshot, start_run, finish_run,
}
use autosys_clone.Scheduler.Session.{
  M, ◌>>=◌, ◌>>◌, pure, get, modify, for_each, with_row, assign, Processor,
}
use autosys_clone.Scheduler.Box.{ended, is_set, kill_children, reset_children}
use autosys_clone.Scheduler.Activate.{activate_job}

abbrev pub Snapshot : Type 0
Snapshot = List (Text × StatusValue)

-- A job that ON_NOEXEC exempts from its command.
abbrev pub bypassed : Time → Job → Job
bypassed now j = record j {
  status = some (status success);
  last_start = some now;
  last_end = some now;
  last_run_date = some (date now);
}

-- The environment of a STARTJOB: the snapshot of the tick, the exit codes and last ends of the
-- jobs that the condition names, and no globals.
unfoldable pub start_env : Snapshot → Time → Job → World → Env
start_env snapshot now row w = record {
  job_statuses = snapshot;
  global_vars = [];
  job_exitcodes = exitcode_snapshot (some (referenced_job_names row.condition)) w;
  job_last_times = last_times_snapshot (some (referenced_job_names row.condition)) w;
  now = some now;
}

abbrev from_scheduler : EventSource → Bool
from_scheduler scheduler = true
from_scheduler _ = false

-- A timed top-level job whose condition is not met waits for it until the end of the day.
unfoldable pub wait_for_condition : Event → Time → Job → World → World
wait_for_condition ev now row w =
    if from_scheduler ev.source && not (is_set row.box_name)
    then record w { waiting = insert row.job_name (date now) w.waiting }
    else w

-- `_handle_startjob`.
unfoldable pub start_row : Processor → Event → Snapshot → Time → Job → M (Unit {0})
unfolding start_env wait_for_condition activate_job is_startable or_inactive value
start_row p ev snapshot now row =
    if not (column_is row.status on_noexec) && not (is_startable (some (or_inactive row.status)))
    then pure tt
    else do
      modify sync
      w ← get
      if not (is_satisfied p.float false (start_env snapshot now row w) row.condition)
          then modify (wait_for_condition ev now row)
          else do
            modify (λ w'. record w' { waiting = erase row.job_name w'.waiting })
            if column_is row.status on_noexec
                then assign row.job_name (bypassed now)
                else activate_job p now row

unfoldable pub handle_startjob : Processor → Event → Snapshot → Time → M (Unit {0})
unfolding with_row start_row
handle_startjob p ev snapshot now = with_row ev.job_name (start_row p ev snapshot now)

-- `_handle_force_startjob`.
unfoldable pub handle_force_startjob : Processor → Event → Time → M (Unit {0})
unfolding with_row reset_children activate_job is_startable or_inactive value
handle_force_startjob p ev now = with_row ev.job_name λ row.
    if not (is_startable (some (or_inactive row.status))) then pure tt else do
      if is_box row then reset_children ev.job_name else pure tt
      with_row ev.job_name (activate_job p now)

-- `_terminate_job`.
unfoldable pub terminate_job : Time → Job → M (Unit {0})
unfolding kill_children value
terminate_job now row = do
  if is_box row then kill_children now row.job_name else pure tt
  assign row.job_name (ended terminated now)

-- `_handle_killjob`.
unfoldable pub handle_killjob : Event → Time → M (Unit {0})
unfolding with_row terminate_job validate_transition or_inactive norm_status value
handle_killjob ev now = with_row ev.job_name λ row.
    if norm_in row.status (running ∷ starting ∷ activated ∷ [])
      && validate_transition false (norm_status row.status) terminated
    then terminate_job now row
    else pure tt

-- `_check_term_run_time`: the minutes since the last start against the limit.
overdue : Time → Job → Bool
unfolding norm_status value
overdue now j = elim j.term_run_time [
  | none ↦ false
  | some limit ↦ elim j.last_start [
    | none ↦ false
    | some last ↦
        norm_in j.status (running ∷ []) && not (limit == 0) && ltb (limit * 60000000) (now - last)
  ]
]

abbrev limited : Job → Bool
limited j = elim j.term_run_time [ none ↦ false | some limit ↦ ltb 0 limit ]

unfoldable pub check_term_run_time : Time → M (Unit {0})
unfolding overdue with_row terminate_job select validate_transition norm_status value
check_term_run_time now = do
  modify sync
  w ← get
  for_each (select (λ j. column_is j.status running && limited j) w) λ name. with_row name λ row.
      if overdue now row && validate_transition false (norm_status row.status) terminated
      then terminate_job now row
      else pure tt

-- The assignment of a status alone.
abbrev pub put_status : JobStatus → Job → Job
put_status s j = record j { status = some (status s) }

-- `_handle_hold`, `_handle_on_ice`: a validated transition to `s`.
unfoldable pub handle_freeze : JobStatus → Event → M (Unit {0})
unfolding with_row validate_transition or_inactive
handle_freeze s ev = with_row ev.job_name λ row.
    if validate_transition false (or_inactive row.status) s
    then assign ev.job_name (put_status s)
    else pure tt

-- `_handle_on_noexec`.
unfoldable pub handle_on_noexec : Event → M (Unit {0})
unfolding with_row validate_transition or_inactive norm_status value
handle_on_noexec ev = with_row ev.job_name λ row.
    if not (norm_in row.status (starting ∷ running ∷ on_ice ∷ []))
      && validate_transition false (or_inactive row.status) on_noexec
    then assign ev.job_name (put_status on_noexec)
    else pure tt

-- `_handle_off_hold`, `_handle_off_ice`, `_handle_off_noexec`: from `s` back to INACTIVE.
unfoldable pub handle_release : JobStatus → Event → M (Unit {0})
unfolding with_row value
handle_release s ev =
    with_row ev.job_name
      λ row. if column_is row.status s then assign ev.job_name (put_status inactive) else pure tt

-- `_handle_mach_online`, `_handle_mach_offline`: the event's job name is a machine's.
unfoldable pub handle_machine : MachineStatus → Event → World → World
handle_machine s ev w = elim (lookup ev.job_name w.machines) [
  | none ↦ w
  | some old ↦ record w { machines = insert ev.job_name s w.machines }
]

-- `_handle_check_heartbeat`.
unfoldable pub handle_check_heartbeat : Processor → Event → World → World
unfolding handle_machine
handle_check_heartbeat p ev w =
    if is_empty ev.job_name
    then w
    else handle_machine (if p.heartbeat ev.job_name then up else down) ev w

-- `_handle_deletejob`. The row is deleted at the next flush. `_clear_dependents`, which deletes the
-- alarms and the output of the job and unlinks its monitors and blobs at once, is left out, since a
-- World holds no rows of those tables, and so is the deletion of the job's runs with it.
unfoldable pub handle_deletejob : Event → M (Unit {0})
unfolding with_row
handle_deletejob ev =
    with_row ev.job_name λ row. modify λ w. record w { doomed = ev.job_name ∷ w.doomed }

-- The exit code that is recorded for a status forced by an operator.
abbrev forced_code : StatusValue → ℤ
forced_code (status success) = pos 0
forced_code _ = pos 1

unfoldable pub force_status : Event → StatusValue → Time → World → World
unfolding value
force_status ev v now w =
    if eq_value v success || eq_value v failure || eq_value v terminated
    then finish_run w.next_id v (forced_code v) (start_run w.next_id ev.job_name now w)
    else w

-- `_handle_change_status`: an event with no new status, or with status 0, is skipped.
unfoldable pub handle_change_status : Event → Time → M (Unit {0})
unfolding with_row force_status
handle_change_status ev now = with_row ev.job_name λ row. elim ev.new_status [
  | none ↦ pure tt
  | some (unlisted zero) ↦ pure tt
  | some v ↦ do
    assign ev.job_name (λ j. record j { status = some v })
    modify (force_status ev v now)
]
