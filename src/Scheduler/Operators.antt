-- ===== src/Scheduler/Operators.antt =====
-- The events by which an operator freezes and releases a job (`_handle_hold` to
-- `_handle_off_noexec` in autosys/scheduler/event_processor.py) against the transition table.
use autosys_clone.Prelude.{
  ◌≡◌, refl, ap, ◌⊎◌, inl, inr, Bool, true, false, not, ◌&&◌, Option, none, some, [], ◌∷◌, Text,
  eq_text, eq_text_iff, if◌then◌else◌, arith, Bool-cases, Option-cases, ◌∙◌,
}
use autosys_clone.Status.{
  JobStatus, inactive, on_hold, on_ice, on_noexec, starting, running, StatusValue, status,
  or_inactive, norm_in, column_is, can_transition, validate_transition, eq_of_eq_status,
}
use autosys_clone.Condition.Eval.{Time}
use autosys_clone.Scheduler.Store.{
  Job, Event, EventType, job_on_hold, hold_job, job_off_hold, job_on_ice, job_off_ice,
  job_on_noexec, job_off_noexec, World, get_row, update_job,
}
use autosys_clone.Scheduler.Store.Laws.{map_option, get_row-update_job}
use autosys_clone.Scheduler.Session.{
  M, pure, assign, world_of, with_row, with_row_found, with_row_missing, Processor,
}
use autosys_clone.Scheduler.Handlers.{
  Snapshot, put_status, handle_freeze, handle_on_noexec, handle_release,
}
use autosys_clone.Scheduler.Events.{handler, handle_event}

-- One job before and after: its status is the same, or has made a transition of the table.
abbrev pub Moves : Option Job → Option Job → Type 0
Moves none after = after ≡ none
Moves (some j) none = ⊥
Moves (some j) (some j') =
    (j'.status ≡ j.status)
    ⊎ ((s : JobStatus) × (j'.status ≡ some (status s))
        × (can_transition (or_inactive j.status) s ≡ true))

Moves-refl : (o : Option Job) → Moves o o
Moves-refl none = refl
Moves-refl (some j) = inl refl

abbrev tested : Text → (Job → Bool) → JobStatus → M (Unit {0})
tested name test s = with_row name λ row. if test row then assign name (put_status s) else pure tt

Moves-put_status :
    (s : JobStatus) (o : Option Job)
    → ((row : Job) → o ≡ some row → can_transition (or_inactive row.status) s ≡ true)
    → Moves o (map_option (put_status s) o)
Moves-put_status s none h = refl
Moves-put_status s (some row) h = inr (s, refl, h row refl)

assigned-Moves :
    (a name : Text) (s : JobStatus) (w : World)
    → ((row : Job) → get_row w name ≡ some row → can_transition (or_inactive row.status) s ≡ true)
    → Moves (get_row w a) (get_row (update_job name (put_status s) w) a)
assigned-Moves a name s w h =
    rw (get_row-update_job a name (put_status s) w (λ j. refl))
      (elim (Bool-cases (eq_text name a)) [
        | inl same ↦ rw same (
            Moves-put_status s (get_row w a)
              (λ row e. h row (ap (get_row w) ((eq_text_iff name a).0 same) ∙ e)))
        | inr other ↦ rw other (Moves-refl (get_row w a))
      ])

tested-Moves :
    (a name : Text) (test : Job → Bool) (s : JobStatus) (w : World)
    → ((row : Job) → test row ≡ true → can_transition (or_inactive row.status) s ≡ true)
    → Moves (get_row w a) (get_row (world_of (tested name test s w)) a)
unfolding with_row
tested-Moves a name test s w h = elim (Option-cases (get_row w name)) [
  | inl missing ↦ rw (with_row_missing name _ w missing) (Moves-refl (get_row w a))
  | inr (row, found) ↦ rw (with_row_found name _ w found) (elim (Bool-cases (test row)) [
    | inl passes ↦ rw passes (assigned-Moves a name s w (λ r e. grind (arith, h, e, found, passes)))
    | inr fails ↦ rw fails (Moves-refl (get_row w a))
  ])
]

-- The events by which an operator freezes or releases a job.
abbrev pub is_freeze_event : EventType → Bool
is_freeze_event job_on_hold = true
is_freeze_event hold_job = true
is_freeze_event job_off_hold = true
is_freeze_event job_on_ice = true
is_freeze_event job_off_ice = true
is_freeze_event job_on_noexec = true
is_freeze_event job_off_noexec = true
is_freeze_event kind = false

freeze-Moves :
    (s : JobStatus) (ev : Event) (a : Text) (w : World)
    → Moves (get_row w a) (get_row (world_of (handle_freeze s ev w)) a)
unfolding handle_freeze
freeze-Moves s ev a w =
    tested-Moves a ev.job_name (λ row. validate_transition false (or_inactive row.status) s) s w
      (λ row h. h)

on_noexec-Moves :
    (ev : Event) (a : Text) (w : World)
    → Moves (get_row w a) (get_row (world_of (handle_on_noexec ev w)) a)
unfolding handle_on_noexec
on_noexec-Moves ev a w =
    tested-Moves a ev.job_name
      (λ row.
        not (norm_in row.status (starting ∷ running ∷ on_ice ∷ []))
        && validate_transition false (or_inactive row.status) on_noexec)
      on_noexec w (λ row h. ground arith)

-- Each of the three statuses may be left for INACTIVE.
release_allowed :
    (s : JobStatus) (v : Option StatusValue)
    → can_transition (status s) inactive ≡ true
    → column_is v s ≡ true
    → can_transition (or_inactive v) inactive ≡ true
unfolding or_inactive can_transition column_is
release_allowed s none c h = cc
release_allowed s (some (StatusValue.unlisted n)) c h = cc
release_allowed s (some (status t)) c h = rw (eq_of_eq_status t s h) c

release-Moves :
    (s : JobStatus) (ev : Event) (a : Text) (w : World)
    → can_transition (status s) inactive ≡ true
    → Moves (get_row w a) (get_row (world_of (handle_release s ev w)) a)
unfolding handle_release
release-Moves s ev a w c =
    tested-Moves a ev.job_name (λ row. column_is row.status s) inactive w
      (λ row h. release_allowed s row.status c h)

-- JOB_ON_HOLD (and HOLD_JOB), JOB_OFF_HOLD, JOB_ON_ICE, JOB_OFF_ICE, JOB_ON_NOEXEC and
-- JOB_OFF_NOEXEC, handled in any session: for every job, the status afterwards is the one before or
-- is reached from it by one transition of the table, and no job appears or disappears.
pub handle_event-Moves :
    (p : Processor) (ev : Event) (snapshot : Snapshot) (now : Time) (w : World) (a : Text)
    → is_freeze_event ev.event_type ≡ true
    → Moves (get_row w a) (get_row (world_of (handle_event p ev snapshot now w)) a)
unfolding handle_event
handle_event-Moves p ev snapshot now w a h = go ev.event_type h
  where
    go :
        (kind : EventType)
        → is_freeze_event kind ≡ true
        → Moves (get_row w a) (get_row (world_of (handler kind p ev snapshot now w)) a)
    go job_on_hold h = freeze-Moves on_hold ev a w
    go hold_job h = freeze-Moves on_hold ev a w
    go job_on_ice h = freeze-Moves on_ice ev a w
    go job_off_hold h = release-Moves on_hold ev a w (unfold can_transition in refl)
    go job_off_ice h = release-Moves on_ice ev a w (unfold can_transition in refl)
    go job_on_noexec h = on_noexec-Moves ev a w
    go job_off_noexec h = release-Moves on_noexec ev a w (unfold can_transition in refl)
    go _ h = cc
