-- ===== src/Scheduler/Tick/Boxes.antt =====
-- The activation of jobs and the box manager write nothing to the database
-- (autosys/scheduler/event_processor.py, autosys/scheduler/box_manager.py).
use autosys_clone.Prelude.{ℕ, zero, suc, List, Text, insert}
use autosys_clone.Status.{StatusValue, success, norm_status}
use autosys_clone.Condition.Eval.{Time, Env}
use autosys_clone.Scheduler.Store.{Job, get_row, is_box}
use autosys_clone.Scheduler.Session.{M, ◌>>◌, pure, Processor}
use autosys_clone.Scheduler.Session.Keeps.{
  Keeps, keeping, Keeps-option, Keeps-pure, Keeps-if_at, Keeps-bind,
}
use autosys_clone.Scheduler.Box.{
  start_child, visit_child, terminate_flagged, Verdict, stays_open, ends, close_box, process_box,
  box_tick, kill_children, reset_children,
}
use autosys_clone.Scheduler.Activate.{
  activate_cmd, update_box_status, open_child, cascade_child, note_child, cascade, activate_box,
  activate_job,
}

pub Keeps-start_child :
    (p : Processor) (now : Time) (child : Job) (e : Env) → Keeps (start_child p now child e)
unfolding start_child
Keeps-start_child p now child e = search (keeping) depth 12

pub Keeps-visit_child :
    (p : Processor) (now : Time) (name : Text) (e : Env) → Keeps (visit_child p now name e)
unfolding visit_child
Keeps-visit_child p now name e =
    Keeps-option (λ w. get_row w name) (pure e) _ (Keeps-pure e)
      (λ child.
        Keeps-if_at _ (start_child p now child e) (pure e) (Keeps-start_child p now child e)
          (Keeps-pure e))

pub Keeps-terminate_flagged :
    (now : Time) (children : List Text) → Keeps (terminate_flagged now children)
unfolding terminate_flagged
Keeps-terminate_flagged now children = search keeping

pub Keeps-kill_children : (now : Time) (box : Text) → Keeps (kill_children now box)
unfolding kill_children
Keeps-kill_children now box = search keeping

pub Keeps-reset_children : (box : Text) → Keeps (reset_children box)
unfolding reset_children
Keeps-reset_children box = search keeping

pub Keeps-activate_cmd : (p : Processor) (now : Time) (row : Job) → Keeps (activate_cmd p now row)
unfolding activate_cmd
Keeps-activate_cmd p now row = search keeping

pub Keeps-update_box_status : (now : Time) (box : Text) → Keeps (update_box_status now box)
unfolding update_box_status
Keeps-update_box_status now box = search keeping

pub Keeps-close_box :
    (now : Time) (box : Text) (children : List Text) (v : Verdict)
    → Keeps (close_box now box children v)
unfolding close_box
Keeps-close_box now box children stays_open = search keeping
Keeps-close_box now box children (ends success) = search keeping
Keeps-close_box now box children (ends _) = search (keeping, Keeps-terminate_flagged)

pub Keeps-process_box :
    (p : Processor) (now : Time) (box : Text) (e : Env) → Keeps (process_box p now box e)
unfolding process_box
Keeps-process_box p now box e = search (keeping, Keeps-visit_child, Keeps-close_box) depth 14

pub Keeps-box_tick :
    (p : Processor) (now : Time) (snapshot : List (Text × StatusValue))
    → Keeps (box_tick p now snapshot)
unfolding box_tick
Keeps-box_tick p now snapshot = search (keeping, Keeps-process_box) depth 12

Keeps-note_child : (name : Text) (e : Env) → Keeps (note_child name e)
unfolding note_child
Keeps-note_child name e =
    Keeps-option (λ w. get_row w name) (pure e)
      (λ j. pure (record e { job_statuses = insert name (norm_status j.status) e.job_statuses }))
      (Keeps-pure e) (λ j. Keeps-pure _)

pub Keeps-cascade_child :
    (p : Processor) (now : Time) (open_nested : Job → M (Unit {0})) (name : Text) (e : Env)
    → ((row : Job) → Keeps (open_nested row))
    → Keeps (cascade_child p now open_nested name e)
unfolding cascade_child open_child
Keeps-cascade_child p now open_nested name e h =
    Keeps-option (λ w. get_row w name) (pure e) _ (Keeps-pure e)
      (λ child.
        Keeps-if_at _ (open_child p now open_nested child >> note_child name e) (pure e)
          (Keeps-bind (open_child p now open_nested child) (λ _. note_child name e)
            (search (keeping, Keeps-activate_cmd, h) depth 12) (λ _. Keeps-note_child name e))
          (Keeps-pure e))

pub Keeps-cascade :
    (p : Processor) (now : Time) (open_nested : Job → M (Unit {0})) (box : Text)
    → ((row : Job) → Keeps (open_nested row))
    → Keeps (cascade p now open_nested box)
unfolding cascade
Keeps-cascade p now open_nested box h = search (keeping, Keeps-cascade_child, h) depth 12

pub Keeps-activate_box :
    (fuel : ℕ) (p : Processor) (now : Time) (row : Job) → Keeps (activate_box fuel p now row)
unfolding activate_box
Keeps-activate_box zero p now row = search keeping
Keeps-activate_box (suc fuel) p now row =
    let inner = Keeps-activate_box fuel p now in
    search (keeping, Keeps-cascade, Keeps-update_box_status, inner) depth 12

pub Keeps-activate_job : (p : Processor) (now : Time) (row : Job) → Keeps (activate_job p now row)
unfolding activate_job
Keeps-activate_job p now row = record {
  kept = λ w manual.
      (Keeps-if_at (is_box row) (activate_box p.nesting p now row) (activate_cmd p now row)
          (Keeps-activate_box p.nesting p now row) (Keeps-activate_cmd p now row)).kept
        w manual;
}
