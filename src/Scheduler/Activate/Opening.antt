-- ===== src/Scheduler/Activate/Opening.antt =====
-- Opening a box ends (`_activate_box` and `_cascade_box_children` in
-- autosys/scheduler/event_processor.py): boxes nest no deeper than there are jobs.
use autosys_clone.Prelude.{◌≡◌, true, false, List, Text, mem_text}
use autosys_clone.Scheduler.Store.{Job}
use autosys_clone.Scheduler.Session.{M, Processor}
use autosys_clone.Scheduler.Activate.Depth.{Runs}

module _ (p : Processor) (calm : (j : Job) → p.dispatch_raises j ≡ false)
    (keeps_name : (j : Job) → (p.dispatch j).job_name ≡ j.job_name) where
  -- Nested boxes that are listed and not open can be opened.
  abbrev Nests : List Text → List Text → (Job → M (Unit {0})) → Type 0
  Nests opened names open_nested =
      (child : Job)
      → mem_text child.job_name opened ≡ false
      → mem_text child.job_name names ≡ true
      → Runs opened names (open_nested child)
