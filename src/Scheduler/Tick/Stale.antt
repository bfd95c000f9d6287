-- ===== src/Scheduler/Tick/Stale.antt =====
-- What a tick reads of the database in a session that does not flush before it queries
-- (`process_one_tick` in autosys/scheduler/event_processor.py; `sync_session` in
-- autosys/db/connection.py makes such sessions).
use autosys_clone.Prelude.{
  ◌≡◌, refl, ap, ◌∙◌, false, none, some, List, [], ◌∷◌, Text, get_or_default,
}
use autosys_clone.Condition.Eval.{Time}
use autosys_clone.TimeTrigger.{get_triggered_jobs}
use autosys_clone.Scheduler.Store.{
  Job, Event, World, sync, status_snapshot, list_stuck_starting, mark_processed, dequeue_pending,
  enqueue, startjob, scheduler,
}
use autosys_clone.Scheduler.Session.{
  modify, attempt, for_each, rows, with_row, assign, call_dispatch, Processor,
}
use autosys_clone.Scheduler.Session.Keeps.{
  Keeps, Kept, keeping, Kept-refl, Kept-trans, Kept-attempt, Keeps-assign, Keeps-with_row,
  Keeps-call_dispatch, Keeps-sync, sync_id,
}
use autosys_clone.Scheduler.Box.{box_tick}
use autosys_clone.Scheduler.Activate.{auto_finish}
use autosys_clone.Scheduler.Handlers.{Snapshot, check_term_run_time}
use autosys_clone.Scheduler.Events.{handle_event}
use autosys_clone.Scheduler.Tick.{
  process_event, process_events, redispatch, start_ready_dependents, list_schedulable,
  time_triggers, settle, after_events, process_one_tick,
}
use autosys_clone.Scheduler.Tick.Boxes.{Keeps-box_tick}
use autosys_clone.Scheduler.Tick.Handlers.{
  Keeps-handle_event, Keeps-check_term_run_time, Keeps-enqueue,
}

Kept-process_event :
    (p : Processor) (snapshot : Snapshot) (now : Time) (w : World) (ev : Event)
    → w.autoflush ≡ false
    → Kept w (process_event p snapshot now w ev)
unfolding process_event mark_processed
Kept-process_event p snapshot now w ev manual =
    let k =
      Kept-attempt (handle_event p ev snapshot now) (Keeps-handle_event p ev snapshot now) w
        manual in
    record { same_saved = k.same_saved; same_autoflush = k.same_autoflush }

Kept-process_events :
    (p : Processor) (snapshot : Snapshot) (now : Time) (w : World) (evs : List Event)
    → w.autoflush ≡ false
    → Kept w (process_events p snapshot now w evs)
unfolding process_events
Kept-process_events p snapshot now w [] manual = Kept-refl w
Kept-process_events p snapshot now w (ev ∷ evs) manual =
    let k = Kept-process_event p snapshot now w ev manual in
    Kept-trans k (
      Kept-process_events p snapshot now (process_event p snapshot now w ev) evs
        (k.same_autoflush ∙ manual))

Kept-redispatch :
    (p : Processor) (now : Time) (w : World) (names : List Text)
    → w.autoflush ≡ false
    → Kept w (redispatch p now w names)
unfolding redispatch
Kept-redispatch p now w [] manual = Kept-refl w
Kept-redispatch p now w (name ∷ names) manual =
    let k =
      Kept-attempt (with_row name (call_dispatch p))
        (Keeps-with_row name (call_dispatch p) (Keeps-call_dispatch p)) w manual in
    let w' = attempt (with_row name (call_dispatch p)) w in
    let k' =
      Kept-attempt (assign name (auto_finish p now)) (Keeps-assign name (auto_finish p now)) w'
        (k.same_autoflush ∙ manual) in
    Kept-trans k (
      Kept-trans k' (
        Kept-redispatch p now (attempt (assign name (auto_finish p now)) w') names
          (k'.same_autoflush ∙ k.same_autoflush ∙ manual)))

Keeps-start_ready_dependents :
    (p : Processor) (before after : Snapshot) (now : Time)
    → Keeps (start_ready_dependents p before after now)
unfolding start_ready_dependents
Keeps-start_ready_dependents p before after now = search (keeping, Keeps-enqueue) depth 12

Kept-time_triggers : (now : Time) (w : World) → w.autoflush ≡ false → Kept w (time_triggers now w)
unfolding time_triggers
Kept-time_triggers now w manual = rw (sync_id w manual) (
    Kept-attempt
      (for_each (get_triggered_jobs w.calendars now (rows w (list_schedulable w)))
        λ j. modify (enqueue startjob j.job_name scheduler))
      (search (keeping, Keeps-enqueue)) w manual)

Kept-sync : (w : World) → w.autoflush ≡ false → Kept w (sync w)
Kept-sync w manual = Keeps-sync.kept w manual

-- A step of the tick, and the flush before it that does not happen.
Kept-step :
    (m : World → World) (w : World)
    → ((w : World) → w.autoflush ≡ false → Kept w (m w))
    → w.autoflush ≡ false
    → Kept w (sync (m w))
Kept-step m w h manual =
    let k = h w manual in Kept-trans k (Kept-sync (m w) (k.same_autoflush ∙ manual))

snapshot-Kept : (v w : World) → Kept v w → status_snapshot none w ≡ status_snapshot none v
unfolding status_snapshot
snapshot-Kept v w k = rw k.same_saved

Kept-settle :
    (p : Processor) (now : Time) (w : World) → w.autoflush ≡ false → Kept w (settle p now w)
unfolding settle
Kept-settle p now w manual =
    let w1 = sync w in
    let k1 = Kept-sync w manual in
    let m1 = k1.same_autoflush ∙ manual in
    let k2 =
      Kept-step (attempt (box_tick p now (status_snapshot none w1))) w1
        (Kept-attempt (box_tick p now (status_snapshot none w1))
          (Keeps-box_tick p now (status_snapshot none w1)))
        m1 in
    let w2 = sync (attempt (box_tick p now (status_snapshot none w1)) w1) in
    let m2 = k2.same_autoflush ∙ m1 in
    let k3 =
      Kept-step (λ v. redispatch p now v (list_stuck_starting w2)) w2
        (λ v m. Kept-redispatch p now v (list_stuck_starting w2) m) m2 in
    let w3 = sync (redispatch p now w2 (list_stuck_starting w2)) in
    let m3 = k3.same_autoflush ∙ m2 in
    let k4 =
      Kept-step (attempt (check_term_run_time now)) w3
        (Kept-attempt (check_term_run_time now) (Keeps-check_term_run_time now)) m3 in
    Kept-trans k1 (Kept-trans k2 (Kept-trans k3 k4))

-- The time triggers leave the statuses that are kept for the next tick.
queued_prev :
    (js : List Job) (w : World)
    → (attempt (for_each js λ j. modify (enqueue startjob j.job_name scheduler)) w).prev_snapshot
      ≡ w.prev_snapshot
unfolding attempt for_each enqueue
queued_prev [] w = refl
queued_prev (j ∷ js) w = queued_prev js (enqueue startjob j.job_name scheduler w)

time_triggers-prev_snapshot :
    (now : Time) (w : World)
    → w.autoflush ≡ false
    → (time_triggers now w).prev_snapshot ≡ w.prev_snapshot
unfolding time_triggers
time_triggers-prev_snapshot now w manual =
    queued_prev
      (get_triggered_jobs (sync w).calendars now (rows (sync w) (list_schedulable (sync w))))
      (sync w)
    ∙ ap (λ v. v.prev_snapshot) (sync_id w manual)

after_events-stale :
    (p : Processor) (first : Snapshot) (now : Time) (w : World)
    → w.autoflush ≡ false
    → ((after_events p first now w).saved ≡ w.saved)
      × ((after_events p first now w).prev_snapshot ≡ some (status_snapshot none w))
unfolding after_events
after_events-stale p first now w manual =
    let w4 = settle p now w in
    let k4 = Kept-settle p now w manual in
    let snapshot = status_snapshot none w4 in
    let before = get_or_default first w4.prev_snapshot in
    let k5 = Kept-trans k4 (
      Kept-attempt (start_ready_dependents p before snapshot now)
        (Keeps-start_ready_dependents p before snapshot now) w4 (k4.same_autoflush ∙ manual)) in
    let w6 = record (attempt (start_ready_dependents p before snapshot now) w4) {
      prev_snapshot = some snapshot;
    } in
    let m6 = k5.same_autoflush ∙ manual in
    (
      (Kept-time_triggers now w6 m6).same_saved ∙ k5.same_saved,
      time_triggers-prev_snapshot now w6 m6 ∙ ap some (snapshot-Kept w w4 k4),
    )

-- One tick, by a processor without a failure injector and in a session that does not flush before it
-- queries, leaves the stored rows of the jobs as they were, whatever its events do to the objects of
-- the session; and the statuses that it keeps for the next tick, against which it looks for jobs
-- that have changed, are those stored before the tick.
pub process_one_tick-stale :
    (p : Processor) (now : Time) (w : World)
    → w.autoflush ≡ false
    → ((process_one_tick p now w).0.saved ≡ w.saved)
      × ((process_one_tick p now w).0.prev_snapshot ≡ some (status_snapshot none w))
unfolding process_one_tick
process_one_tick-stale p now w manual =
    let w0 = sync w in
    let first = status_snapshot none w0 in
    let k0 = Kept-sync w manual in
    let k =
      Kept-trans k0
        (Kept-process_events p first now w0 (dequeue_pending w0) (k0.same_autoflush ∙ manual)) in
    let w' = process_events p first now w0 (dequeue_pending w0) in
    let (saved, prev) = after_events-stale p first now w' (k.same_autoflush ∙ manual) in
    (saved ∙ k.same_saved, prev ∙ ap some (snapshot-Kept w w' k))
