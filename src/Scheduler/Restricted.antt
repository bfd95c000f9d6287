-- ===== src/Scheduler/Restricted.antt =====
-- A box that is opened evaluates its children on snapshots of the referenced jobs alone
-- (`_cascade_box_children` in autosys/scheduler/event_processor.py).
use autosys_clone.Prelude.{
  ◌≡◌, refl, true, false, some, none, List, [], ◌∷◌, ◌++◌, Text, mem_text, All, arith,
}
use autosys_clone.Condition.Eval.{FloatText, Time}
use autosys_clone.Evaluator.{is_satisfied, referenced_job_names}
use autosys_clone.Evaluator.Frame.{Agree, is_satisfied-Agree}
use autosys_clone.Scheduler.Store.{Job, World}
use autosys_clone.Scheduler.Store.Laws.{
  lookup-status_snapshot, lookup-last_times_snapshot, lookup-exitcode_snapshot,
}
use autosys_clone.Scheduler.Activate.{all_references, snapshots}

mem-append_left :
    (x : Text) (xs ys : List Text) → mem_text x xs ≡ true → mem_text x (xs ++ ys) ≡ true
mem-append_left x [] ys h = cc
mem-append_left x (y ∷ xs) ys h = ground (arith, mem-append_left x xs ys)

mem-append_right :
    (x : Text) (xs ys : List Text) → mem_text x ys ≡ true → mem_text x (xs ++ ys) ≡ true
mem-append_right x [] ys h = h
mem-append_right x (y ∷ xs) ys h = ground (arith, mem-append_right x xs ys)

snapshots-Agree :
    (now : Time) (w : World) (names refs : List Text)
    → ((x : Text) → mem_text x names ≡ true → mem_text x refs ≡ true)
    → Agree names (snapshots (some refs) now w) (snapshots none now w)
unfolding snapshots
snapshots-Agree now w names refs sub = record {
  same_status = λ x m. lookup-status_snapshot x refs w (sub x m);
  same_exitcode = λ x m. lookup-exitcode_snapshot x refs w (sub x m);
  same_last_time = λ x m. lookup-last_times_snapshot x refs w (sub x m);
  same_globals = refl;
  same_now = refl;
}

snapshots_from :
    (ft : FloatText) (now : Time) (w : World) (refs : List Text) (children : List Job)
    → ((x : Text) → mem_text x (all_references children) ≡ true → mem_text x refs ≡ true)
    → All
        (λ child.
          is_satisfied ft false (snapshots (some refs) now w) child.condition
          ≡ is_satisfied ft false (snapshots none now w) child.condition)
        children
unfolding all_references
snapshots_from ft now w refs [] sub = tt
snapshots_from ft now w refs (c ∷ cs) sub = (
  is_satisfied-Agree ft false _ _ c.condition (
      snapshots-Agree now w (referenced_job_names c.condition) refs (λ x m.
        sub x (mem-append_left x (referenced_job_names c.condition) (all_references cs) m))),
  snapshots_from ft now w refs cs
      (λ x m. sub x (mem-append_right x (referenced_job_names c.condition) (all_references cs) m)),
)

-- Every child of a box is decided on the snapshots of the jobs that the children's conditions
-- name exactly as on the snapshots of all jobs.
pub snapshots_restricted :
    (ft : FloatText) (now : Time) (w : World) (children : List Job)
    → All
        (λ child.
          is_satisfied ft false (snapshots (some (all_references children)) now w) child.condition
          ≡ is_satisfied ft false (snapshots none now w) child.condition)
        children
snapshots_restricted ft now w children =
    snapshots_from ft now w (all_references children) children (λ x m. m)
