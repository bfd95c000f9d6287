-- ===== src/Scheduler/Box.antt =====
-- BoxManager (autosys/scheduler/box_manager.py). Its exit codes, last ends and clock, and the
-- snapshot that a tick passes along and updates, are one Env. `kill_fn` only signals processes,
-- and the counts of changes are only logged; both are left out.
pub mod Family
pub mod Decision
use autosys_clone.Prelude.{
  Bool, true, false, not, ◌&&◌, ◌||◌, Option, none, some, List, [], ◌∷◌, ◌++◌, Text, is_empty,
  strip, mem_text, lookup, insert, keep, any, if◌then◌else◌, is_some,
}
use autosys_clone.Status.{
  JobStatus, success, failure, terminated, on_ice, inactive, activated, starting, running,
  on_noexec, StatusValue, status, norm_status, norm_in, eq_value, value, terminal_states,
}
use autosys_clone.Condition.Eval.{Time, Env}
use autosys_clone.Evaluator.{is_satisfied, referenced_job_names}
use autosys_clone.Scheduler.Clock.{date}
use autosys_clone.Scheduler.Store.{
  Job, World, sync, get_row, is_box_any_case, get_children, get_running_boxes, exitcode_snapshot,
  last_times_snapshot,
}
use autosys_clone.Scheduler.Session.{
  M, ◌>>=◌, ◌>>◌, pure, get, modify, for_each, fold_each, rows, with_row, assign, Processor,
  call_dispatch,
}

-- `_TERMINAL_FAIL` and `_SETTLED`; `_TERMINAL` is the same set as the state machine's.
abbrev pub terminal_fail : List JobStatus
terminal_fail = failure ∷ terminated ∷ []

abbrev pub settled : List JobStatus
settled = success ∷ failure ∷ terminated ∷ on_ice ∷ []

-- A condition that is absent or blank is met.
is_blank : Option Text → Bool
is_blank none = true
is_blank (some c) = is_empty (strip c)

-- `_conditions_met`, on the job's own condition or the override.
unfoldable pub conditions_met : Processor → Env → Option Text → Bool
unfolding is_blank
conditions_met p e condition = is_blank condition || is_satisfied p.float false e condition

-- A text attribute that is set and not empty.
abbrev pub is_set : Option Text → Bool
is_set none = false
is_set (some c) = not (is_empty c)

-- `_is_unreachable`.
can_change : Env → Text → Bool
unfolding norm_status value
can_change e name = elim (lookup name e.job_statuses) [
  | none ↦ false
  | some v ↦ not (norm_in (some v) settled)
]

unfoldable pub is_unreachable : Processor → Env → Job → Bool
unfolding can_change conditions_met norm_status value
is_unreachable p e child =
    norm_in child.status (inactive ∷ [])
    && is_set child.condition
    && not (any (can_change e) (referenced_job_names child.condition))
    && any (λ name. true) (referenced_job_names child.condition)
    && not (conditions_met p e child.condition)

abbrev set_status : JobStatus → Job → Job
set_status s j = record j { status = some (status s) }

-- The assignments to a job that completes at once, and to a box or job that ends.
abbrev pub complete : Time → Job → Job
complete now j = record j {
  status = some (status success);
  last_start = some now;
  last_end = some now;
}

abbrev pub ended : JobStatus → Time → Job → Job
ended s now j = record j { status = some (status s); last_end = some now }

abbrev pub open_box : Time → Job → Job
open_box now j = record j {
  status = some (status activated);
  last_start = some now;
  last_run_date = some (date now);
}

abbrev noted : Text → JobStatus → Env → Env
noted name s e = record e { job_statuses = insert name (status s) e.job_statuses }

-- The body of the loop over the children, behind the test of the status and the condition.
unfoldable pub start_child : Processor → Time → Job → Env → M Env
unfolding norm_status value
start_child p now child e =
    if norm_in child.status (on_noexec ∷ [])
    then assign child.job_name (complete now) >> pure e
    else if is_box_any_case child
    then assign child.job_name (open_box now) >> pure (noted child.job_name activated e)
    else do
      assign child.job_name (set_status starting)
      if p.auto_complete
          then assign child.job_name (complete now)
          else call_dispatch p (set_status starting child)
      pure (noted child.job_name starting e)

unfoldable pub visit_child : Processor → Time → Text → Env → M Env
unfolding start_child norm_status value
visit_child p now name e w = elim (get_row w name) [
  | none ↦ pure e w
  | some child ↦
      if norm_in child.status (inactive ∷ on_noexec ∷ []) && conditions_met p e child.condition
      then start_child p now child e w
      else pure e w
]

-- `_terminate_job_terminator_children`: a flagged child that has not ended is terminated.
unfoldable pub flagged_ended : Time → Job → Job
unfolding norm_status value
flagged_ended now j =
    if j.job_terminator && not (norm_in j.status terminal_states) then ended terminated now j else j

unfoldable pub terminate_flagged : Time → List Text → M (Unit {0})
unfolding flagged_ended
terminate_flagged now children = for_each children λ name. assign name (flagged_ended now)

-- Why a box ends now, and with what: the decision of `_process_box` behind its loop.
pub data Verdict : Type 0 where
  ends : JobStatus → Verdict
  stays_open : Verdict

-- The outcome where every child is settled or unreachable.
unfoldable pub outcome_of : List Job → JobStatus
unfolding norm_status value
outcome_of children =
    if any (λ c. norm_in c.status (terminated ∷ [])) children
    then terminated
    else if any (λ c. norm_in c.status (failure ∷ [])) children
    then failure
    else success

unfoldable pub verdict : Processor → Env → Job → List Job → Verdict
unfolding outcome_of is_unreachable norm_status value
verdict p e box children =
    if any (λ c. c.box_terminator && norm_in c.status terminal_fail) children
    then ends terminated
    else if is_set box.box_failure && conditions_met p e box.box_failure
    then ends failure
    else if is_set box.box_success && conditions_met p e box.box_success
    then ends success
    else if not (is_set box.box_failure) && any (λ c. norm_in c.status (failure ∷ [])) children
    then ends failure
    else if any (λ c. not (norm_in c.status settled) && not (is_unreachable p e c)) children
    then stays_open
    else ends (outcome_of children)

-- The box ends; FAILURE and TERMINATED take the flagged children with them.
unfoldable pub close_box : Time → Text → List Text → Verdict → M (Unit {0})
unfolding terminate_flagged
close_box now box children stays_open = pure tt
close_box now box children (ends success) = assign box (ended success now)
close_box now box children (ends s) = assign box (ended s now) >> terminate_flagged now children

-- `_process_box`.
unfoldable pub process_box : Processor → Time → Text → Env → M Env
unfolding visit_child verdict close_box with_row
process_box p now box e = do
  modify sync
  w ← get
  let children = get_children box w
  if not (any (λ name. true) children) then assign box (ended success now) >> pure e else do
    e' ← fold_each children e (visit_child p now)
    w' ← get
    with_row box λ row. close_box now box children (verdict p e' row (rows w' children))
    pure e'

-- `tick`, on the snapshot of the event processor.
unfoldable pub box_tick : Processor → Time → List (Text × StatusValue) → M (Unit {0})
unfolding process_box
box_tick p now snapshot = do
  modify sync
  w ← get
  e ←
      fold_each (get_running_boxes w)
        (record {
          job_statuses = snapshot;
          global_vars = [];
          job_exitcodes = exitcode_snapshot none w;
          job_last_times = last_times_snapshot none w;
          now = some now;
        })
        (process_box p now)
  pure tt

-- `kill_children`: what has not ended is terminated.
unfoldable pub killed : Time → Job → Job
unfolding norm_status value
killed now j = if norm_in j.status terminal_states then j else ended terminated now j

unfoldable pub kill_children : Time → Text → M (Unit {0})
unfolding killed
kill_children now box = do
  modify sync
  w ← get
  for_each (get_children box w) λ name. assign name (killed now)

-- `reset_children`.
abbrev pub reset : Job → Job
reset j = record j { status = some (status inactive); last_end = none }

unfoldable pub reset_children : Text → M (Unit {0})
reset_children box = do
  modify sync
  w ← get
  for_each (get_children box w) λ name. assign name reset
