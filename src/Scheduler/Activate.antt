-- ===== src/Scheduler/Activate.antt =====
-- The activation of jobs in the EventProcessor (autosys/scheduler/event_processor.py):
-- `_activate_job`, `_activate_cmd`, `_activate_box`, `_cascade_box_children` and
-- `_update_box_status`, for a processor without a failure injector. A box that is opened opens
-- the boxes in it, with fuel for the depth.
pub mod Depth
pub mod Opening
use autosys_clone.Prelude.{
  ℕ, zero, suc, Bool, true, false, not, ◌&&◌, ◌||◌, Option, none, some, List, [], ◌∷◌, ◌++◌, Text,
  insert, any, all, length, if◌then◌else◌,
}
use autosys_clone.Status.{
  success, failure, on_ice, activated, starting, running, on_noexec, status, norm_status, norm_in,
  column_is, or_inactive, validate_transition, is_startable, value,
}
use autosys_clone.Condition.Eval.{Time, Env}
use autosys_clone.Evaluator.{is_satisfied, referenced_job_names}
use autosys_clone.Scheduler.Clock.{date}
use autosys_clone.Scheduler.Store.{
  Job, World, sync, get_row, is_box, is_box_any_case, get_children, status_snapshot,
  exitcode_snapshot, last_times_snapshot,
}
use autosys_clone.Scheduler.Session.{
  M, ◌>>=◌, ◌>>◌, pure, get, modify, raise, fold_each, rows, assign, Processor, call_dispatch,
}
use autosys_clone.Scheduler.Window.{window_open}
use autosys_clone.Scheduler.Box.{complete, ended, open_box}

-- The assignments of `_activate_cmd` before it calls the dispatcher.
abbrev pub started : Time → Job → Job
started now j = record j {
  status = some (status starting);
  last_start = some now;
  last_run_date = some (date now);
}

-- With `auto_complete` a job that the dispatcher left RUNNING succeeds at once.
unfoldable pub auto_finish : Processor → Time → Job → Job
unfolding value
auto_finish p now j =
    if p.auto_complete && column_is j.status running then ended success now j else j

-- `_activate_cmd`.
unfoldable pub activate_cmd : Processor → Time → Job → M (Unit {0})
unfolding window_open call_dispatch auto_finish or_inactive validate_transition
activate_cmd p now row =
    if window_open row.run_window now && validate_transition false (or_inactive row.status) starting
    then (do
      assign row.job_name (started now)
      call_dispatch p (started now row)
      assign row.job_name (auto_finish p now))
    else pure tt

-- The branches of `_update_box_status`, from the box and its children.
unfoldable pub box_update : Time → List Job → Job → Job
unfolding norm_status value
box_update now children box =
    if not (any (λ c. true) children)
    then ended success now box
    else if any (λ c. norm_in c.status (running ∷ starting ∷ activated ∷ [])) children
    then (if column_is box.status activated
        then record box { status = some (status running) }
        else box)
    else if any (λ c. norm_in c.status (failure ∷ [])) children
    then ended failure now box
    else if all (λ c. norm_in c.status (success ∷ on_ice ∷ [])) children
    then ended success now box
    else box

-- `_update_box_status`.
unfoldable pub update_box_status : Time → Text → M (Unit {0})
unfolding box_update
update_box_status now box = do
  modify sync
  w ← get
  assign box (box_update now (rows w (get_children box w)))

-- The names that the conditions of the children reference.
unfoldable pub all_references : List Job → List Text
all_references [] = []
all_references (c ∷ cs) = referenced_job_names c.condition ++ all_references cs

-- `snapshot[child.job_name] = _ns(child.status)`.
unfoldable pub note_child : Text → Env → M Env
unfolding norm_status
note_child name e w = elim (get_row w name) [
  | none ↦ pure e w
  | some j ↦ pure (record e { job_statuses = insert name (norm_status j.status) e.job_statuses }) w
]

-- Whether the cascade may start the child.
unfoldable pub may_start : Job → Bool
unfolding or_inactive norm_status is_startable value
may_start child =
    norm_in (some (or_inactive child.status)) (on_noexec ∷ [])
    || is_startable (some (or_inactive child.status))

-- How a child is started: `open_nested` activates a nested box.
unfoldable pub open_child : Processor → Time → (Job → M (Unit {0})) → Job → M (Unit {0})
unfolding activate_cmd or_inactive norm_status value
open_child p now open_nested child =
    if norm_in (some (or_inactive child.status)) (on_noexec ∷ [])
    then assign child.job_name (complete now)
    else if is_box_any_case child
    then open_nested child
    else activate_cmd p now child

-- The body of the loop of `_cascade_box_children`.
unfoldable pub cascade_child : Processor → Time → (Job → M (Unit {0})) → Text → Env → M Env
unfolding may_start open_child note_child or_inactive norm_status value
cascade_child p now open_nested name e w = elim (get_row w name) [
  | none ↦ pure e w
  | some child ↦
      if may_start child && is_satisfied p.float false e child.condition
      then (open_child p now open_nested child >> note_child name e) w
      else pure e w
]

-- The three snapshots, of the given jobs or of all.
unfoldable pub snapshots : Option (List Text) → Time → World → Env
snapshots names now w = record {
  job_statuses = status_snapshot names w;
  global_vars = [];
  job_exitcodes = exitcode_snapshot names w;
  job_last_times = last_times_snapshot names w;
  now = some now;
}

-- `_cascade_box_children`, on snapshots of the referenced jobs.
unfoldable pub cascade : Processor → Time → (Job → M (Unit {0})) → Text → M (Unit {0})
unfolding all_references snapshots cascade_child
cascade p now open_nested box = do
  modify sync
  w ← get
  let refs = all_references (rows w (get_children box w))
  e ← fold_each (get_children box w) (snapshots (some refs) now w) (cascade_child p now open_nested)
  pure tt

-- `_activate_box`, on the number of nested calls that there is room for: with no room left the call
-- raises (RecursionError).
unfoldable pub activate_box : ℕ → Processor → Time → Job → M (Unit {0})
unfolding cascade update_box_status or_inactive validate_transition
activate_box zero p now row = raise
activate_box (suc fuel) p now row =
    if validate_transition false (or_inactive row.status) activated
    then (do
      assign row.job_name (open_box now)
      cascade p now (activate_box fuel p now) row.job_name
      update_box_status now row.job_name)
    else pure tt

-- `_activate_job`: a box, or a command.
unfoldable pub activate_job : Processor → Time → Job → M (Unit {0})
unfolding activate_box activate_cmd
activate_job p now row w =
    if is_box row then activate_box p.nesting p now row w else activate_cmd p now row w
