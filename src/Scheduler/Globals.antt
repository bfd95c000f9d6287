-- ===== src/Scheduler/Globals.antt =====
-- What the conditions of the scheduler see of the globals (`_handle_set_global` and
-- `_handle_startjob` in autosys/scheduler/event_processor.py).
use autosys_clone.Prelude.{
  ℕ, ◌≡◌, refl, ap, ◌∙◌, inl, inr, not, ◌&&◌, true, false, Option, none, some, [], ◌∷◌, Text,
  if◌then◌else◌, Bool-cases, Option-cases, upper, lookup, eq_text,
}
use autosys_clone.Status.{on_noexec, is_startable, or_inactive, column_is}
use autosys_clone.Condition.{eq, value_cond}
use autosys_clone.Condition.Parser.{parsed}
use autosys_clone.Condition.Tokenizer.{parse_condition}
use autosys_clone.Condition.Eval.{Env, Time, evaluate, eval, compare_text}
use autosys_clone.Evaluator.{is_satisfied, evaluate_parsed}
use autosys_clone.Scheduler.Store.{
  Job, Event, World, sync, get_row, set_glob, select, enqueue, startjob, scheduler,
}
use autosys_clone.Scheduler.Session.{
  done, pure, modify, world_of, with_row, with_row_found, with_row_missing, Processor,
}
use autosys_clone.Scheduler.Session.Loops.{for_each_id}
use autosys_clone.Scheduler.Handlers.{Snapshot, handle_startjob, start_row, start_env}
use autosys_clone.Scheduler.Starts.{waiting_live}
use autosys_clone.Scheduler.Events.{
  global_env, unblocked, handle_set_global, set_global_checked, set_global_to,
}

-- The test never passes, so the body of the loop does nothing.
idle_body :
    (p : Processor) (e : Env) (w : World) (name : Text)
    → with_row name
        (λ row.
          if unblocked p e row then modify (enqueue startjob row.job_name scheduler) else pure tt)
        w
      ≡ done w tt
unfolding unblocked
idle_body p e w name = elim (Option-cases (get_row w name)) [
  | inl missing ↦ with_row_missing name _ w missing
  | inr (row, found) ↦ with_row_found name _ w found
]

abbrev SameEvents : World → World → Type 0
SameEvents w w' = (w'.new_events ≡ w.new_events) × (w'.autoflush ≡ w.autoflush)

sync_events : (w : World) → w.autoflush ≡ false → SameEvents w (sync w)
unfolding sync
sync_events w manual = (rw manual refl, rw manual refl)

set_glob_events :
    (name v : Text) (w : World) → w.autoflush ≡ false → SameEvents w (set_glob name v w)
unfolding set_glob
set_glob_events name v w manual = elim (Option-cases (lookup (upper name) (sync w).globs)) [
  | inl new ↦ rw (set_glob, new) (sync_events w manual)
  | inr (old, known) ↦ rw (set_glob, known) (sync_events w manual)
]

set_global_to_events :
    (p : Processor) (now : Time) (name v : Text) (w : World)
    → w.autoflush ≡ false
    → (world_of (set_global_to p now name v w)).new_events ≡ w.new_events
unfolding set_global_to
set_global_to_events p now name v w manual =
    let (kept, still) = set_glob_events name v w manual in
    ap (λ o. (world_of o).new_events)
      (for_each_id (select (λ j. true) (sync (set_glob name v w))) _ (sync (set_glob name v w))
        (idle_body p (global_env now (sync (set_glob name v w))) (sync (set_glob name v w))))
    ∙ (sync_events (set_glob name v w) (still ∙ manual)).0
    ∙ kept

-- SET_GLOBAL queues no event, whatever conditions wait for the global: in a session that does not
-- flush before it queries, the events that were queued are those that were queued before it.
pub handle_set_global-new_events :
    (p : Processor) (ev : Event) (now : Time) (w : World)
    → w.autoflush ≡ false
    → (world_of (handle_set_global p ev now w)).new_events ≡ w.new_events
unfolding handle_set_global set_global_checked
handle_set_global-new_events p ev now w manual = go ev.global_name ev.global_value
  where
    go :
        (name v : Option Text)
        → (world_of (set_global_checked p now name v w)).new_events ≡ w.new_events
    go none v = refl
    go (some []) v = refl
    go (some (c ∷ cs)) none = refl
    go (some (c ∷ cs)) (some v) = set_global_to_events p now (c ∷ cs) v w manual

-- Such a condition is false where there are no globals.
unmet :
    (p : Processor) (e : Env) (condition : Option Text) (c : ℕ) (cs name : Text) (x : ℕ) (xs : Text)
    → e.global_vars ≡ []
    → condition ≡ some (c ∷ cs)
    → parse_condition (c ∷ cs) ≡ parsed (value_cond name eq (x ∷ xs))
    → is_satisfied p.float false e condition ≡ false
unfolding is_satisfied evaluate_parsed evaluate eval compare_text eq_text lookup
unmet p e condition c cs name x xs none_set guarded parses = rw (guarded, parses, none_set)

sync_live : (w : World) → w.autoflush ≡ false → (sync w).live ≡ w.live
unfolding sync
sync_live w manual = rw manual refl

-- A STARTJOB for a job with a condition value(X) = "v", for a text v that is not empty, changes no
-- job, whatever the globals are, in a session that does not flush before it queries.
pub handle_startjob-value_cond :
    (p : Processor) (ev : Event) (snapshot : Snapshot) (now : Time) (w : World) (row : Job)
    → (c : ℕ) (cs : Text) (name : Text) (x : ℕ) (xs : Text) → w.autoflush ≡ false
    → get_row w ev.job_name ≡ some row
    → row.condition ≡ some (c ∷ cs)
    → parse_condition (c ∷ cs) ≡ parsed (value_cond name eq (x ∷ xs))
    → (world_of (handle_startjob p ev snapshot now w)).live ≡ w.live
unfolding handle_startjob start_row
handle_startjob-value_cond p ev snapshot now w row c cs name x xs manual found guarded parses =
    rw (with_row_found ev.job_name _ w found)
      (elim (Bool-cases (
        not (column_is row.status on_noexec)
        && not (is_startable (some (or_inactive row.status))))) [
          | inl idle ↦ rw idle refl
          | inr busy ↦
              rw
                (
                  busy,
                  unmet p (start_env snapshot now row (sync w)) row.condition c cs name x xs
                      (unfold start_env in refl) guarded parses,
                )
                (waiting_live ev now row (sync w) ∙ sync_live w manual)
        ])
