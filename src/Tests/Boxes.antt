-- ===== src/Tests/Boxes.antt =====
-- The theorems about boxes, snapshots and the time trigger at concrete sessions.
use autosys_clone.Prelude.{
  ◌≡◌, ◌↔◌, refl, inl, true, false, none, some, [], ◌∷◌, codes, mem_text, eq_text, All,
}
use autosys_clone.Status.{
  JobStatus, status, inactive, success, failure, terminated, value, norm_in, norm_status,
  terminal_states,
}
use autosys_clone.Condition.Eval.{Env}
use autosys_clone.Evaluator.{is_satisfied}
use autosys_clone.TimeTrigger.{is_triggered}
use autosys_clone.TimeTrigger.Soundness.{Due, is_triggered-Due}
use autosys_clone.Scheduler.Store.{World, Job, sync, get_row, get_children, update_job}
use autosys_clone.Scheduler.Session.{world_of, for_each}
use autosys_clone.Scheduler.Box.{
  ends, verdict, kill_children, reset, reset_children, close_box, ended,
}
use autosys_clone.Scheduler.Box.Family.{
  kill_children-terminal, children_only, reset_children-reset, close_box-terminal,
}
use autosys_clone.Scheduler.Box.Decision.{IsFine, IsDone, verdict-success, verdict-ends}
use autosys_clone.Scheduler.Activate.{all_references, snapshots}
use autosys_clone.Scheduler.Restricted.{snapshots_restricted}
use autosys_clone.Tests.Sample.{
  no_floats, command, box, finished, idle, processor, session, session_of,
}

listed_a : mem_text (codes "a") (codes "a" ∷ []) ≡ true
unfolding eq_text
listed_a = refl

abbrev any_env : Env
any_env = record {
  job_statuses = [];
  global_vars = [];
  job_exitcodes = [];
  job_last_times = [];
  now = some 3;
}

succeeds : verdict processor any_env box (finished ∷ []) ≡ ends success
unfolding verdict
succeeds = refl

All-IsDone : All (IsDone processor any_env) (finished ∷ [])
unfolding norm_status value
All-IsDone = (inl refl, tt)

is_triggered-Due_example : (is_triggered [] 0 idle ≡ true) ↔ Due [] 0 idle
is_triggered-Due_example = is_triggered-Due [] 0 idle

snapshots_restricted_example :
    All
      (λ child.
        is_satisfied no_floats false
          (snapshots (some (all_references (command ∷ []))) 0 session)
          child.condition
        ≡ is_satisfied no_floats false (snapshots none 0 session) child.condition)
      (command ∷ [])
snapshots_restricted_example = snapshots_restricted no_floats 0 session (command ∷ [])

child_a : mem_text (codes "a") (get_children (codes "box") (sync session)) ≡ true
unfolding get_children sync eq_text
child_a = refl

no_child : mem_text (codes "box") (get_children (codes "box") (sync session)) ≡ false
unfolding get_children sync eq_text
no_child = refl

killed_a :
    get_row (world_of (kill_children 3 (codes "box") session)) (codes "a")
    ≡ some (ended terminated 3 command)
unfolding kill_children get_row update_job get_children sync eq_text for_each
killed_a = refl

reset_a :
    get_row (world_of (reset_children (codes "box") session)) (codes "a") ≡ some (reset command)
unfolding reset_children get_row update_job get_children sync eq_text for_each
reset_a = refl

closed_a :
    get_row
      (world_of (close_box 3 (codes "box") (codes "a" ∷ []) (ends failure) session))
      (codes "a")
    ≡ some (ended terminated 3 command)
unfolding close_box get_row update_job eq_text for_each
closed_a = refl

kill_children-terminal_example : norm_in (ended terminated 3 command).status terminal_states ≡ true
kill_children-terminal_example =
    kill_children-terminal 3 (codes "box") (codes "a") session (ended terminated 3 command) child_a
      killed_a

children_only_example :
    (get_row (world_of (kill_children 3 (codes "box") session)) (codes "box")
      ≡ get_row (sync session) (codes "box"))
    × (get_row (world_of (reset_children (codes "box") session)) (codes "box")
        ≡ get_row (sync session) (codes "box"))
children_only_example = children_only 3 (codes "box") (codes "box") session no_child

reset_children-reset_example :
    ((reset command).status ≡ some (status inactive))
    × ((reset command).last_end ≡ none)
    × (i : Job) × (get_row (sync session) (codes "a") ≡ some i)
    × (record (reset command) { status = i.status; last_end = i.last_end } ≡ i)
reset_children-reset_example =
    reset_children-reset (codes "box") (codes "a") session (reset command) child_a reset_a

close_box-terminal_example : norm_in (ended terminated 3 command).status terminal_states ≡ true
close_box-terminal_example =
    close_box-terminal 3 (codes "box") (codes "a") (codes "a" ∷ []) failure session
      (ended terminated 3 command) (inl refl) listed_a closed_a refl

verdict-success_example : All (IsFine processor any_env) (finished ∷ [])
verdict-success_example = verdict-success processor any_env box (finished ∷ []) succeeds refl

verdict-ends_example : (s : JobStatus) × (verdict processor any_env box (finished ∷ []) ≡ ends s)
verdict-ends_example = verdict-ends processor any_env box (finished ∷ []) All-IsDone

abbrev outer : Job
outer = record box { status = none }

abbrev nested : Job
nested = record outer { job_name = codes "inner"; box_name = some (codes "box") }

abbrev boxes : World
boxes =
    session_of
      (outer ∷ nested ∷ record idle { box_name = some (codes "inner"); condition = none } ∷ [])
