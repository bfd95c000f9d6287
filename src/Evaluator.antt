-- ===== src/Evaluator.antt =====
-- The bridge from conditions to the scheduler (autosys/scheduler/condition_evaluator.py):
-- `is_satisfied` and `referenced_job_names`. The snapshots that it builds from the database are in
-- Scheduler/Store.antt.
pub mod Frame
use autosys_clone.Prelude.{
  Bool, true, false, ◌&&◌, Option, none, some, List, [], ◌∷◌, Text, is_empty, if◌then◌else◌,
}
use autosys_clone.Status.{JobStatus, StatusValue, status}
use autosys_clone.Condition.{Node}
use autosys_clone.Condition.Parser.{Parsed, parsed, syntax_error, exhausted}
use autosys_clone.Condition.Tokenizer.{parse_condition}
use autosys_clone.Condition.Eval.{FloatText, Env, evaluate, list_job_dependencies}

-- `_ran_today`: all but INACTIVE.
unfoldable pub ran_today : StatusValue → Bool
ran_today (status JobStatus.inactive) = false
ran_today v = true

-- The statuses under `date_conditions`.
unfoldable pub mask_statuses : List (Text × StatusValue) → List (Text × StatusValue)
unfolding ran_today
mask_statuses [] = []
mask_statuses ((name, v) ∷ rest) =
    (name, if ran_today v then v else status JobStatus.inactive) ∷ mask_statuses rest

-- An exception of the evaluation makes the condition false.
unfoldable pub or_false : Option Bool → Bool
or_false none = false
or_false (some b) = b

unfoldable pub evaluate_parsed : FloatText → Env → Parsed Node → Bool
unfolding or_false
evaluate_parsed ft e (parsed node) = or_false (evaluate ft e node)
evaluate_parsed ft e _ = false

-- `is_satisfied`, with `date_conditions and today_str` as one flag. A condition that is absent or
-- empty is satisfied, and one that does not parse is not.
unfoldable pub is_satisfied : FloatText → Bool → Env → Option Text → Bool
unfolding mask_statuses evaluate_parsed
is_satisfied ft dated e none = true
is_satisfied ft dated e (some []) = true
is_satisfied ft dated e (some (c ∷ cs)) =
    evaluate_parsed ft
      (record e { job_statuses = if dated then mask_statuses e.job_statuses else e.job_statuses })
      (parse_condition (c ∷ cs))

dependencies_of : Parsed Node → List Text
dependencies_of (parsed node) = list_job_dependencies node
dependencies_of _ = []

-- `referenced_job_names`, the set as a list.
unfoldable pub referenced_job_names : Option Text → List Text
unfolding dependencies_of
referenced_job_names none = []
referenced_job_names (some []) = []
referenced_job_names (some (c ∷ cs)) = dependencies_of (parse_condition (c ∷ cs))
