-- ===== src/Scheduler/Starts.antt =====
-- What STARTJOB and KILLJOB events do to the event's job, and where they do nothing
-- (`_handle_startjob` and `_handle_killjob` in autosys/scheduler/event_processor.py).
use autosys_clone.Prelude.{
  ℕ, zero, suc, ◌≡◌, refl, ap, ◌∙◌, inl, inr, true, false, ◌&&◌, Option, none, some, [], ◌∷◌,
  eq_text_iff, if◌then◌else◌, arith, Bool-cases, erase,
}
use autosys_clone.Status.{
  running, starting, activated, terminated, on_noexec, StatusValue, status, value, column_is,
  norm_in, norm_status, or_inactive, can_transition, validate_transition, is_startable,
}
use autosys_clone.Condition.Eval.{Time}
use autosys_clone.Evaluator.{is_satisfied}
use autosys_clone.Scheduler.Store.{Job, Event, World, sync, get_row, is_box}
use autosys_clone.Scheduler.Store.Laws.{get_row-update_job, get_row-job_name}
use autosys_clone.Scheduler.Session.{world_of, with_row_found, Processor}
use autosys_clone.Scheduler.Box.{ended}
use autosys_clone.Scheduler.Activate.{activate_box, activate_job}
use autosys_clone.Scheduler.Handlers.{
  Snapshot, handle_killjob, terminate_job, handle_startjob, start_row, start_env,
  wait_for_condition,
}

-- The gate of KILLJOB: of the statuses it lists, only RUNNING passes the table.
kill_gate :
    (v : Option StatusValue)
    → (norm_in v (running ∷ starting ∷ activated ∷ [])
        && validate_transition false (norm_status v) terminated)
      ≡ column_is v running
unfolding norm_status validate_transition column_is
kill_gate none = refl
kill_gate (some (StatusValue.unlisted n)) = refl
kill_gate (some (status running)) = refl
kill_gate (some (status _)) = refl

-- KILLJOB terminates a command exactly if it is RUNNING, with the time of the event as its last
-- end; in every other status, STARTING included, it leaves the row as it is.
pub handle_killjob_row :
    (ev : Event) (now : Time) (w : World) (row : Job)
    → get_row w ev.job_name ≡ some row
    → is_box row ≡ false
    → get_row (world_of (handle_killjob ev now w)) ev.job_name
      ≡ some (if column_is row.status running then ended terminated now row else row)
unfolding handle_killjob terminate_job
handle_killjob_row ev now w row found command =
    rw (with_row_found ev.job_name _ w found) (elim (Bool-cases (column_is row.status running)) [
      | inl yes_running ↦
          rw (kill_gate row.status, yes_running, command)
            (get_row-update_job ev.job_name row.job_name (ended terminated now) w (λ j. refl)
              ∙ ground (
                arith,
                get_row-job_name ev.job_name w found,
                eq_text_iff row.job_name ev.job_name,
                found,
              ))
      | inr not_running ↦ rw (kill_gate row.status, not_running) found
    ])

-- A box in TERMINATED is startable, but the table has no way from TERMINATED to ACTIVATED.
abbrev DeadBox : Job → Type 0
DeadBox row = (is_box row ≡ true) × (row.status ≡ some (status terminated))

activate_box_dead :
    (room : ℕ) (p : Processor) (now : Time) (row : Job) (w : World)
    → row.status ≡ some (status terminated)
    → world_of (activate_box room p now row w) ≡ w
unfolding activate_box or_inactive validate_transition can_transition
activate_box_dead zero p now row w dead = refl
activate_box_dead (suc room) p now row w dead = rw (dead) refl

activate_job_dead :
    (p : Processor) (now : Time) (row : Job) (w : World)
    → DeadBox row
    → world_of (activate_job p now row w) ≡ w
unfolding activate_job
activate_job_dead p now row w (box, dead) = rw (box) (activate_box_dead p.nesting p now row w dead)

dead_startable :
    (row : Job)
    → row.status ≡ some (status terminated)
    → is_startable (some (or_inactive row.status)) ≡ true
unfolding is_startable or_inactive
dead_startable row dead = rw dead

dead_exempt :
    (row : Job) → row.status ≡ some (status terminated) → column_is row.status on_noexec ≡ false
unfolding value column_is
dead_exempt row dead = rw dead refl

pub waiting_live :
    (ev : Event) (now : Time) (row : Job) (w : World)
    → (wait_for_condition ev now row w).live ≡ w.live
unfolding wait_for_condition
waiting_live ev now row w = ground arith

-- A STARTJOB for a box that was TERMINATED changes no job, whatever its condition and the
-- dispatcher: the jobs behind it are those that were there, after the flush of a session that
-- flushes before it queries.
pub handle_startjob-dead_box :
    (p : Processor) (ev : Event) (snapshot : Snapshot) (now : Time) (w : World) (row : Job)
    → get_row w ev.job_name ≡ some row
    → is_box row ≡ true
    → row.status ≡ some (status terminated)
    → (world_of (handle_startjob p ev snapshot now w)).live ≡ (sync w).live
unfolding handle_startjob start_row wait_for_condition
handle_startjob-dead_box p ev snapshot now w row found box dead =
    rw (with_row_found ev.job_name _ w found) (
      rw (dead_startable row dead, dead_exempt row dead)
        (elim (Bool-cases
          (is_satisfied p.float false (start_env snapshot now row (sync w)) row.condition)) [
            | inl met ↦ rw met (
                ap (λ v. v.live)
                  (activate_job_dead p now row
                    (record (sync w) { waiting = erase row.job_name (sync w).waiting })
                    (box, dead)))
            | inr unmet ↦ rw unmet (waiting_live ev now row (sync w))
          ]))
