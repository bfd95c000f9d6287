-- ===== src/Scheduler/Box/Family.antt =====
-- What ending, killing and restarting a box does to its children (`kill_children`,
-- `reset_children` and `_terminate_job_terminator_children` in autosys/scheduler/box_manager.py).
use autosys_clone.Prelude.{
  ◌≡◌, refl, ap, none, true, false, some, List, Text, mem_text, arith, Option-cases, inl, inr, ◌⊎◌,
}
use autosys_clone.Status.{
  JobStatus, status, inactive, failure, terminated, norm_in, terminal_states,
}
use autosys_clone.Condition.Eval.{Time}
use autosys_clone.Scheduler.Store.{Job, World, sync, get_row, get_children, update_job}
use autosys_clone.Scheduler.Session.{world_of, for_each, assign}
use autosys_clone.Scheduler.Session.Loops.{for_each-assign, get_row-update_all}
use autosys_clone.Scheduler.Box.{
  ended, killed, kill_children, reset, reset_children, flagged_ended, terminate_flagged, ends,
  close_box,
}

-- Behind a loop that assigns `f` to the children, a child is what `f` makes of it.
loop-child :
    (a : Text) (names : List Text) (f : Job → Job) (w : World) (j : Job)
    → ((i : Job) → (f i).job_name ≡ i.job_name)
    → ((i : Job) → f (f i) ≡ f i)
    → mem_text a names ≡ true
    → get_row (world_of (for_each names (λ name. assign name f) w)) a ≡ some j
    → (i : Job) × (get_row w a ≡ some i) × (j ≡ f i)
loop-child a names f w j same idem m h = elim (Option-cases (get_row w a)) [
  | inl missing ↦
      absurd (ground (arith, for_each-assign names f w, get_row-update_all a names f w same idem))
  | inr (i, found) ↦ (
    i,
    found,
    ground (arith, for_each-assign names f w, get_row-update_all a names f w same idem),
  )
]

killed_idem : (now : Time) (j : Job) → killed now (killed now j) ≡ killed now j
unfolding killed
killed_idem now j = ground arith

killed-name : (now : Time) (j : Job) → (killed now j).job_name ≡ j.job_name
unfolding killed
killed-name now j = ground arith

killed-terminal : (now : Time) (j : Job) → norm_in (killed now j).status terminal_states ≡ true
unfolding killed
killed-terminal now j = ground arith

-- Killing a box leaves no child of it that has not ended: after `kill_children` each row of a child
-- holds SUCCESS, FAILURE or TERMINATED.
pub kill_children-terminal :
    (now : Time) (box a : Text) (w : World) (j : Job)
    → mem_text a (get_children box (sync w)) ≡ true
    → get_row (world_of (kill_children now box w)) a ≡ some j
    → norm_in j.status terminal_states ≡ true
unfolding kill_children
kill_children-terminal now box a w j m h =
    let (i, found, e) =
      loop-child a (get_children box (sync w)) (killed now) (sync w) j (killed-name now)
        (killed_idem now) m h in
    rw e (killed-terminal now i)

-- Killing the children of a box changes no other job, and restarting them neither.
pub children_only :
    (now : Time) (box a : Text) (w : World)
    → mem_text a (get_children box (sync w)) ≡ false
    → (get_row (world_of (kill_children now box w)) a ≡ get_row (sync w) a)
      × (get_row (world_of (reset_children box w)) a ≡ get_row (sync w) a)
unfolding kill_children reset_children
children_only now box a w m =
    let names = get_children box (sync w) in
    (
      rw (for_each-assign names (killed now) (sync w)) (
          ground (
            arith,
            get_row-update_all a names (killed now) (sync w) (killed-name now) (killed_idem now),
          )),
      rw (for_each-assign names reset (sync w))
          (ground (arith, get_row-update_all a names reset (sync w) (λ j. refl) (λ j. refl))),
    )

-- Restarting a box makes every child of it INACTIVE with no last end, and changes nothing else of
-- the child: with its status and last end put back it is the row from before.
pub reset_children-reset :
    (box a : Text) (w : World) (j : Job)
    → mem_text a (get_children box (sync w)) ≡ true
    → get_row (world_of (reset_children box w)) a ≡ some j
    → (j.status ≡ some (status inactive))
      × (j.last_end ≡ none)
      × (i : Job) × (get_row (sync w) a ≡ some i)
      × (record j { status = i.status; last_end = i.last_end } ≡ i)
unfolding reset_children
reset_children-reset box a w j m h =
    let (i, found, e) =
      loop-child a (get_children box (sync w)) reset (sync w) j (λ i. refl) (λ i. refl) m h in
    (
      ap (λ r. r.status) e,
      ap (λ r. r.last_end) e,
      i,
      found,
      ap {A = Job} {B = Job} (λ r. record r { status = i.status; last_end = i.last_end }) e,
    )

flagged_ended_idem :
    (now : Time) (j : Job) → flagged_ended now (flagged_ended now j) ≡ flagged_ended now j
unfolding flagged_ended
flagged_ended_idem now j = ground arith

flagged_ended-name : (now : Time) (j : Job) → (flagged_ended now j).job_name ≡ j.job_name
unfolding flagged_ended
flagged_ended-name now j = ground arith

flagged_ended-terminal :
    (now : Time) (j : Job)
    → (flagged_ended now j).job_terminator ≡ true
    → norm_in (flagged_ended now j).status terminal_states ≡ true
unfolding flagged_ended
flagged_ended-terminal now j h = ground arith

terminate_flagged-terminal :
    (now : Time) (a : Text) (names : List Text) (w : World) (j : Job)
    → mem_text a names ≡ true
    → get_row (world_of (terminate_flagged now names w)) a ≡ some j
    → j.job_terminator ≡ true
    → norm_in j.status terminal_states ≡ true
unfolding terminate_flagged
terminate_flagged-terminal now a names w j m h t =
    let (i, found, e) =
      loop-child a names (flagged_ended now) w j (flagged_ended-name now) (flagged_ended_idem now) m
        h in
    rw e (flagged_ended-terminal now i (rw (← e) t))

-- When the box manager closes a box with FAILURE or TERMINATED (`close_box`), the box takes its
-- flagged children with it: afterwards each child with job_terminator has ended.
pub close_box-terminal :
    (now : Time) (box a : Text) (names : List Text) (s : JobStatus) (w : World) (j : Job)
    → (s ≡ failure) ⊎ (s ≡ terminated)
    → mem_text a names ≡ true
    → get_row (world_of (close_box now box names (ends s) w)) a ≡ some j
    → j.job_terminator ≡ true
    → norm_in j.status terminal_states ≡ true
unfolding close_box
close_box-terminal now box a names failure w j which m h t =
    terminate_flagged-terminal now a names (update_job box (ended failure now) w) j m h t
close_box-terminal now box a names terminated w j which m h t =
    terminate_flagged-terminal now a names (update_job box (ended terminated now) w) j m h t
close_box-terminal now box a names _ w j which m h t = absurd (ground arith)
