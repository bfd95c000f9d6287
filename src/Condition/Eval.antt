-- ===== src/Condition/Eval.antt =====
-- `evaluate`, `_compare`, `_FUNC_CHECKS` and `list_job_dependencies` of condition_parser.py.
-- A time is a number of microseconds. A lookback is compared with an age exactly, where the
-- program divides floats. What `float` makes of the text of a global is a parameter.
use autosys_clone.Prelude.{
  ℕ, ◌-◌, ◌*◌, ◌^◌, Bool, true, false, not, ◌&&◌, ◌||◌, Option, none, some, List, [], ◌∷◌, Text,
  upper, eq_text, lt_text, lookup, insert, ltb, ◌==◌, if◌then◌else◌, ℤ, ltb_ℤ, eqb_ℤ, Decimal,
}
use autosys_clone.Status.{
  JobStatus, StatusValue, status, on_ice, inactive, running, starting, restart, value, eq_status,
  mem_status,
}
use autosys_clone.Condition.{
  Func, Cmp, eq, neq, lt, gt, le, ge, Node, job_cond, exit_code_cond, value_cond, and_node, or_node,
  not_node,
}

abbrev pub Time : Type 0
Time = ℕ

-- `float(a) < float(b)` and `float(a) <= float(b)` of two texts; `none` where `float` raises.
pub record FloatText : Type 0 where
  pub float_lt : Text → Text → Option Bool
  pub float_le : Text → Text → Option Bool

-- What a condition is evaluated against. An exit code or a time may be recorded as None.
pub record Env : Type 0 where
  pub job_statuses : List (Text × StatusValue)
  pub global_vars : List (Text × Text)
  pub job_exitcodes : List (Text × Option ℤ)
  pub job_last_times : List (Text × Option Time)
  pub now : Option Time

-- `_FUNC_CHECKS.get(func)`, applied to a status.
unfoldable pub func_check : Func → JobStatus → Option Bool
unfolding value
func_check Func.success v = some (mem_status v (JobStatus.success ∷ on_ice ∷ []))
func_check Func.failure v = some (eq_status v JobStatus.failure)
func_check Func.done v =
    some (mem_status v (JobStatus.success ∷ JobStatus.failure ∷ JobStatus.terminated ∷ on_ice ∷ []))
func_check Func.notrunning v = some (not (mem_status v (starting ∷ running ∷ restart ∷ [])))
func_check Func.terminated v = some (eq_status v JobStatus.terminated)
func_check Func.activated v = some (eq_status v JobStatus.activated)
func_check Func.s v = some (mem_status v (JobStatus.success ∷ on_ice ∷ []))
func_check Func.f v = some (eq_status v JobStatus.failure)
func_check Func.d v =
    some (mem_status v (JobStatus.success ∷ JobStatus.failure ∷ JobStatus.terminated ∷ on_ice ∷ []))
func_check Func.n v = some (not (mem_status v (starting ∷ running ∷ restart ∷ [])))
func_check Func.t v = some (eq_status v JobStatus.terminated)
func_check (Func.other name) v = none

-- `JobStatus[raw]`, where a missing job and an unlisted status read as INACTIVE.
unfoldable pub status_of : Option StatusValue → JobStatus
status_of (some (status v)) = v
status_of _ = inactive

-- The lookback test, the hours against the time since the last end.
within_hours : Decimal → Option Time → Option (Option Time) → Bool
within_hours hours (some now) (some (some last)) =
    not (ltb now last)
    && not hours.minus
    && not (ltb (hours.digits * 3600000000) ((now - last) * 10 ^ hours.places))
within_hours hours _ _ = false

-- A lookback that is absent or 0 puts no limit.
unfoldable pub look_back_holds : Option Decimal → Option Time → Option (Option Time) → Bool
unfolding within_hours
look_back_holds none now last = true
look_back_holds (some hours) now last = hours.digits == 0 || within_hours hours now last

-- The comparison of texts where one of them is no number.
unfoldable pub compare_as_text : Cmp → Text → Text → Bool
compare_as_text eq a b = eq_text a b
compare_as_text neq a b = not (eq_text a b)
compare_as_text lt a b = lt_text a b
compare_as_text gt a b = lt_text b a
compare_as_text le a b = not (lt_text b a)
compare_as_text ge a b = not (lt_text a b)

or_as_text : Option Bool → Cmp → Text → Text → Bool
unfolding compare_as_text
or_as_text (some holds) op a b = holds
or_as_text none op a b = compare_as_text op a b

-- `_compare` on two texts.
unfoldable pub compare_text : FloatText → Cmp → Text → Text → Bool
unfolding or_as_text compare_as_text
compare_text ft eq a b = eq_text a b
compare_text ft neq a b = not (eq_text a b)
compare_text ft lt a b = or_as_text (ft.float_lt a b) lt a b
compare_text ft gt a b = or_as_text (ft.float_lt b a) gt a b
compare_text ft le a b = or_as_text (ft.float_le a b) le a b
compare_text ft ge a b = or_as_text (ft.float_le b a) ge a b

-- `_compare` on two integers.
unfoldable pub compare_int : Cmp → ℤ → ℤ → Bool
compare_int eq a b = eqb_ℤ a b
compare_int neq a b = not (eqb_ℤ a b)
compare_int lt a b = ltb_ℤ a b
compare_int gt a b = ltb_ℤ b a
compare_int le a b = not (ltb_ℤ b a)
compare_int ge a b = not (ltb_ℤ a b)

-- `{k.upper(): v for k, v in globals}`, from the entries read so far.
unfoldable pub upper_keys : List (Text × Text) → List (Text × Text) → List (Text × Text)
upper_keys seen [] = seen
upper_keys seen ((k, v) ∷ rest) = upper_keys (insert (upper k) v seen) rest

-- `actual is None` makes an exit code condition false.
exit_code_holds : Option (Option ℤ) → Cmp → ℤ → Bool
unfolding compare_int
exit_code_holds (some (some code)) op expected = compare_int op code expected
exit_code_holds _ op expected = false

-- `d.get(name, "")`.
text_or_empty : Option Text → Text
text_or_empty none = []
text_or_empty (some v) = v

-- The short-circuiting connectives; `none` is an exception that ended the left side.
abbrev pub and_then : Option Bool → Option Bool → Option Bool
and_then (some true) r = r
and_then l r = l

abbrev pub or_else : Option Bool → Option Bool → Option Bool
or_else (some false) r = r
or_else l r = l

abbrev pub negation : Option Bool → Option Bool
negation none = none
negation (some b) = some (not b)

-- The nested `_eval`, on upper-cased globals. `none` is the ValueError of an unknown function.
unfoldable pub eval : FloatText → Env → Node → Option Bool
unfolding func_check status_of look_back_holds compare_text exit_code_holds text_or_empty
eval ft e (job_cond func name instance_name look_back) =
    and_then (func_check func (status_of (lookup name e.job_statuses)))
      (some (look_back_holds look_back e.now (lookup name e.job_last_times)))
eval ft e (value_cond name op expected) =
    some (compare_text ft op (text_or_empty (lookup name e.global_vars)) expected)
eval ft e (exit_code_cond name op expected) =
    some (exit_code_holds (lookup name e.job_exitcodes) op expected)
eval ft e (and_node l r) = let right = eval ft e r in and_then (eval ft e l) right
eval ft e (or_node l r) = let right = eval ft e r in or_else (eval ft e l) right
eval ft e (not_node m) = negation (eval ft e m)

unfoldable pub evaluate : FloatText → Env → Node → Option Bool
unfolding eval upper_keys
evaluate ft e node = eval ft (record e { global_vars = upper_keys [] e.global_vars }) node

-- `seen[name] = None`: the names in the order in which they first came.
abbrev pub add_name : Text → List Text → List Text
add_name name [] = name ∷ []
add_name name (x ∷ seen) = if eq_text x name then x ∷ seen else x ∷ add_name name seen

unfoldable pub collect : Node → List Text → List Text
collect (job_cond func name instance_name look_back) seen = add_name name seen
collect (exit_code_cond name op expected) seen = add_name name seen
collect (value_cond name op expected) seen = seen
collect (and_node l r) seen = collect r (collect l seen)
collect (or_node l r) seen = collect r (collect l seen)
collect (not_node m) seen = collect m seen

unfoldable pub list_job_dependencies : Node → List Text
unfolding collect
list_job_dependencies node = collect node []
