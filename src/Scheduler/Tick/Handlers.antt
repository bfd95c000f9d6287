-- ===== src/Scheduler/Tick/Handlers.antt =====
-- The event handlers write nothing to the database (autosys/scheduler/event_processor.py).
use autosys_clone.Prelude.{
  zero, suc, refl, false, not, ◌&&◌, Option, none, some, [], ◌∷◌, Text, erase, upper, lookup,
  Option-cases, inl, inr, arith,
}
use autosys_clone.Status.{
  JobStatus, StatusValue, status, unlisted, on_hold, on_ice, on_noexec, column_is, is_startable,
  or_inactive,
}
use autosys_clone.Condition.Eval.{Time}
use autosys_clone.Evaluator.{is_satisfied}
use autosys_clone.Scheduler.Store.{
  startjob, force_startjob, killjob, job_on_hold, hold_job, job_off_hold, job_on_ice, job_off_ice,
  job_on_noexec, job_off_noexec, mach_online, mach_offline, deletejob, stop_demon, change_status,
  set_global, check_heartbeat, comment, reply_response, alarm, release_resource, unhandled, up,
  down, Job, Event, EventType, EventSource, MachineStatus, sync, set_glob, enqueue, start_run,
  finish_run,
}
use autosys_clone.Scheduler.Session.{◌>>◌, pure, modify, assign, Processor}
use autosys_clone.Scheduler.Session.Keeps.{
  Keeps, keeping, Keeps-modify, Keeps-with_row, Keeps-if, Keeps-bind, Keeps-assign, Keeps-query,
  Keeps-sync, Keeps-pure, Keeps-raise,
}
use autosys_clone.Scheduler.Handlers.{
  Snapshot, start_env, bypassed, handle_startjob, start_row, wait_for_condition,
  handle_force_startjob, terminate_job, handle_killjob, check_term_run_time, handle_freeze,
  handle_on_noexec, handle_release, handle_machine, handle_check_heartbeat, handle_deletejob,
  force_status, handle_change_status,
}
use autosys_clone.Scheduler.Events.{
  handle_set_global, set_global_checked, set_global_to, handler, handle_event,
}
use autosys_clone.Scheduler.Tick.Boxes.{
  Keeps-activate_job, Keeps-kill_children, Keeps-reset_children,
}

Keeps-wait : (ev : Event) (now : Time) (row : Job) → Keeps (modify (wait_for_condition ev now row))
unfolding wait_for_condition
Keeps-wait ev now row =
    Keeps-modify (wait_for_condition ev now row) (λ w. ground arith) (λ w. ground arith)

Keeps-start_row :
    (p : Processor) (ev : Event) (snapshot : Snapshot) (now : Time) (row : Job)
    → Keeps (start_row p ev snapshot now row)
unfolding start_row
Keeps-start_row p ev snapshot now row =
    let forget =
      Keeps-modify (λ w. record w { waiting = erase row.job_name w.waiting }) (λ w. refl)
        (λ w. refl) in
    Keeps-if
      (not (column_is row.status on_noexec) && not (is_startable (some (or_inactive row.status)))) _
      _ (Keeps-pure tt)
      (Keeps-query _ (λ w.
        Keeps-if (not (is_satisfied p.float false (start_env snapshot now row w) row.condition)) _ _
          (Keeps-wait ev now row)
          (Keeps-bind _ _ forget (λ _.
            Keeps-if (column_is row.status on_noexec) _ _ (Keeps-assign row.job_name (bypassed now))
              (Keeps-activate_job p now row)))))

Keeps-handle_startjob :
    (p : Processor) (ev : Event) (snapshot : Snapshot) (now : Time)
    → Keeps (handle_startjob p ev snapshot now)
unfolding handle_startjob
Keeps-handle_startjob p ev snapshot now =
    Keeps-with_row ev.job_name (start_row p ev snapshot now) (Keeps-start_row p ev snapshot now)

Keeps-handle_force_startjob :
    (p : Processor) (ev : Event) (now : Time) → Keeps (handle_force_startjob p ev now)
unfolding handle_force_startjob
Keeps-handle_force_startjob p ev now =
    search (keeping, Keeps-reset_children, Keeps-activate_job) depth 14

Keeps-terminate_job : (now : Time) (row : Job) → Keeps (terminate_job now row)
unfolding terminate_job
Keeps-terminate_job now row = search (keeping, Keeps-kill_children) depth 8

Keeps-handle_killjob : (ev : Event) (now : Time) → Keeps (handle_killjob ev now)
unfolding handle_killjob
Keeps-handle_killjob ev now = search (keeping, Keeps-terminate_job) depth 8

pub Keeps-check_term_run_time : (now : Time) → Keeps (check_term_run_time now)
unfolding check_term_run_time
Keeps-check_term_run_time now = search (keeping, Keeps-terminate_job) depth 12

Keeps-handle_freeze : (s : JobStatus) (ev : Event) → Keeps (handle_freeze s ev)
unfolding handle_freeze
Keeps-handle_freeze s ev = search keeping

Keeps-handle_on_noexec : (ev : Event) → Keeps (handle_on_noexec ev)
unfolding handle_on_noexec
Keeps-handle_on_noexec ev = search keeping

Keeps-handle_release : (s : JobStatus) (ev : Event) → Keeps (handle_release s ev)
unfolding handle_release
Keeps-handle_release s ev = search keeping

Keeps-handle_machine : (s : MachineStatus) (ev : Event) → Keeps (modify (handle_machine s ev))
unfolding handle_machine
Keeps-handle_machine s ev =
    Keeps-modify (handle_machine s ev) (λ w. ground arith) (λ w. ground arith)

Keeps-handle_check_heartbeat :
    (p : Processor) (ev : Event) → Keeps (modify (handle_check_heartbeat p ev))
unfolding handle_check_heartbeat handle_machine
Keeps-handle_check_heartbeat p ev =
    Keeps-modify (handle_check_heartbeat p ev) (λ w. ground arith) (λ w. ground arith)

Keeps-handle_deletejob : (ev : Event) → Keeps (handle_deletejob ev)
unfolding handle_deletejob
Keeps-handle_deletejob ev =
    let doom =
      Keeps-modify (λ w. record w { doomed = ev.job_name ∷ w.doomed }) (λ w. refl) (λ w. refl) in
    search (keeping, doom)

-- What is assigned where nothing is flushed.
Keeps-set_glob : (name v : Text) → Keeps (modify (set_glob name v))
unfolding set_glob
Keeps-set_glob name v = record {
  kept = λ w manual.
      let k = Keeps-sync.kept w manual in
      elim (Option-cases (lookup (upper name) (sync w).globs)) [
        | inl new ↦
            rw (set_glob, new)
              (record { same_saved = k.same_saved; same_autoflush = k.same_autoflush })
        | inr (old, known) ↦
            rw (set_glob, known)
              (record { same_saved = k.same_saved; same_autoflush = k.same_autoflush })
      ];
}

Keeps-force_status :
    (ev : Event) (v : StatusValue) (now : Time) → Keeps (modify (force_status ev v now))
unfolding force_status start_run finish_run sync
Keeps-force_status ev v now = record {
  kept = λ w manual. record { same_saved = ground arith; same_autoflush = ground arith };
}

Keeps-handle_change_status : (ev : Event) (now : Time) → Keeps (handle_change_status ev now)
unfolding handle_change_status
Keeps-handle_change_status ev now = Keeps-with_row ev.job_name _ (λ row. go ev.new_status)
  where
    go :
        (o : Option StatusValue)
        → Keeps {A = Unit {0}} (elim o [
          | none ↦ pure tt
          | some (unlisted zero) ↦ pure tt
          | some v ↦ do
            assign ev.job_name (λ j. record j { status = some v })
            modify (force_status ev v now)
        ])
    go none = Keeps-pure tt
    go (some (unlisted zero)) = Keeps-pure tt
    go (some (unlisted (suc n))) = search (keeping, Keeps-force_status)
    go (some (status s)) = search (keeping, Keeps-force_status)

pub Keeps-enqueue :
    (kind : EventType) (name : Text) (source : EventSource)
    → Keeps (modify (enqueue kind name source))
unfolding enqueue
Keeps-enqueue kind name source = Keeps-modify (enqueue kind name source) (λ w. refl) (λ w. refl)

Keeps-set_global_to :
    (p : Processor) (now : Time) (name v : Text) → Keeps (set_global_to p now name v)
unfolding set_global_to
Keeps-set_global_to p now name v = search (keeping, Keeps-set_glob) depth 14

Keeps-set_global_checked :
    (p : Processor) (now : Time) (name v : Option Text) → Keeps (set_global_checked p now name v)
unfolding set_global_checked
Keeps-set_global_checked p now none v = Keeps-pure tt
Keeps-set_global_checked p now (some []) v = Keeps-pure tt
Keeps-set_global_checked p now (some (c ∷ cs)) none = Keeps-pure tt
Keeps-set_global_checked p now (some (c ∷ cs)) (some v) = Keeps-set_global_to p now (c ∷ cs) v

Keeps-handler :
    (kind : EventType) (p : Processor) (ev : Event) (snapshot : Snapshot) (now : Time)
    → Keeps (handler kind p ev snapshot now)
unfolding handler handle_set_global
Keeps-handler startjob p ev snapshot now = Keeps-handle_startjob p ev snapshot now
Keeps-handler force_startjob p ev snapshot now = Keeps-handle_force_startjob p ev now
Keeps-handler killjob p ev snapshot now = Keeps-handle_killjob ev now
Keeps-handler job_on_hold p ev snapshot now = Keeps-handle_freeze on_hold ev
Keeps-handler hold_job p ev snapshot now = Keeps-handle_freeze on_hold ev
Keeps-handler job_off_hold p ev snapshot now = Keeps-handle_release on_hold ev
Keeps-handler job_on_ice p ev snapshot now = Keeps-handle_freeze on_ice ev
Keeps-handler job_off_ice p ev snapshot now = Keeps-handle_release on_ice ev
Keeps-handler job_on_noexec p ev snapshot now = Keeps-handle_on_noexec ev
Keeps-handler job_off_noexec p ev snapshot now = Keeps-handle_release on_noexec ev
Keeps-handler mach_online p ev snapshot now = Keeps-handle_machine up ev
Keeps-handler mach_offline p ev snapshot now = Keeps-handle_machine down ev
Keeps-handler deletejob p ev snapshot now = Keeps-handle_deletejob ev
Keeps-handler stop_demon p ev snapshot now =
    Keeps-modify (λ w. record w { daemon = false }) (λ w. refl) (λ w. refl)
Keeps-handler change_status p ev snapshot now = Keeps-handle_change_status ev now
Keeps-handler set_global p ev snapshot now =
    Keeps-set_global_checked p now ev.global_name ev.global_value
Keeps-handler check_heartbeat p ev snapshot now = Keeps-handle_check_heartbeat p ev
Keeps-handler comment p ev snapshot now = Keeps-raise
Keeps-handler reply_response p ev snapshot now = Keeps-pure tt
Keeps-handler alarm p ev snapshot now = Keeps-pure tt
Keeps-handler release_resource p ev snapshot now = Keeps-pure tt
Keeps-handler unhandled p ev snapshot now = Keeps-pure tt

pub Keeps-handle_event :
    (p : Processor) (ev : Event) (snapshot : Snapshot) (now : Time)
    → Keeps (handle_event p ev snapshot now)
unfolding handle_event
Keeps-handle_event p ev snapshot now = Keeps-handler ev.event_type p ev snapshot now
