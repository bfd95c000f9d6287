-- ===== src/Evaluator/Frame.antt =====
-- A condition is decided by the jobs that it names: the snapshots may be restricted to those.
use autosys_clone.Prelude.{
  ◌≡◌, refl, ap, Bool, true, false, Option, none, some, List, [], ◌∷◌, Text, eq_text_iff,
  eq_text_self, mem_text, lookup, if◌then◌else◌, arith,
}
use autosys_clone.Status.{JobStatus, StatusValue, status}
use autosys_clone.Condition.{
  Node, job_cond, exit_code_cond, value_cond, and_node, or_node, not_node,
}
use autosys_clone.Condition.Parser.{Parsed, parsed, syntax_error, exhausted}
use autosys_clone.Condition.Tokenizer.{parse_condition}
use autosys_clone.Condition.Eval.{
  FloatText, Env, eval, evaluate, add_name, collect, list_job_dependencies,
}
use autosys_clone.Evaluator.{
  mask_statuses, or_false, evaluate_parsed, is_satisfied, dependencies_of, referenced_job_names,
}

-- The environments give the same entries for the listed jobs, and the same globals and time.
pub record Agree (names : List Text) (e e' : Env) : Type 0 where
  pub same_status :
      (name : Text)
      → mem_text name names ≡ true
      → lookup name e.job_statuses ≡ lookup name e'.job_statuses
  pub same_exitcode :
      (name : Text)
      → mem_text name names ≡ true
      → lookup name e.job_exitcodes ≡ lookup name e'.job_exitcodes
  pub same_last_time :
      (name : Text)
      → mem_text name names ≡ true
      → lookup name e.job_last_times ≡ lookup name e'.job_last_times
  pub same_globals : e.global_vars ≡ e'.global_vars
  pub same_now : e.now ≡ e'.now

mem-add_name :
    (x name : Text) (seen : List Text)
    → mem_text x seen ≡ true
    → mem_text x (add_name name seen) ≡ true
mem-add_name x name [] h = cc
mem-add_name x name (y ∷ seen) h = ground (arith, mem-add_name x name seen)

mem-add_name_self : (name : Text) (seen : List Text) → mem_text name (add_name name seen) ≡ true
mem-add_name_self name [] = ground (arith, eq_text_self name)
mem-add_name_self name (y ∷ seen) =
    ground (arith, mem-add_name_self name seen, eq_text_iff y name, eq_text_iff name y)

mem-collect :
    (x : Text) (node : Node) (seen : List Text)
    → mem_text x seen ≡ true
    → mem_text x (collect node seen) ≡ true
unfolding collect
mem-collect x (job_cond func name i l) seen h = mem-add_name x name seen h
mem-collect x (exit_code_cond name op v) seen h = mem-add_name x name seen h
mem-collect x (value_cond name op v) seen h = h
mem-collect x (and_node l r) seen h = mem-collect x r (collect l seen) (mem-collect x l seen h)
mem-collect x (or_node l r) seen h = mem-collect x r (collect l seen) (mem-collect x l seen h)
mem-collect x (not_node m) seen h = mem-collect x m seen h

Agree-weaken :
    {e e' : Env} (names names' : List Text)
    → ((x : Text) → mem_text x names ≡ true → mem_text x names' ≡ true)
    → Agree names' e e'
    → Agree names e e'
Agree-weaken names names' sub a = record {
  same_status = λ x m. a.same_status x (sub x m);
  same_exitcode = λ x m. a.same_exitcode x (sub x m);
  same_last_time = λ x m. a.same_last_time x (sub x m);
  same_globals = a.same_globals;
  same_now = a.same_now;
}

eval-Agree :
    (ft : FloatText) (e e' : Env) (node : Node) (seen : List Text)
    → Agree (collect node seen) e e'
    → eval ft e node ≡ eval ft e' node
unfolding eval collect
eval-Agree ft e e' (job_cond func name i l) seen a = rw (
  a.same_status name (mem-add_name_self name seen),
  a.same_last_time name (mem-add_name_self name seen),
  a.same_now,
)
eval-Agree ft e e' (exit_code_cond name op v) seen a =
    rw (a.same_exitcode name (mem-add_name_self name seen))
eval-Agree ft e e' (value_cond name op v) seen a = rw a.same_globals
eval-Agree ft e e' (and_node l r) seen a = cc (
  eval-Agree ft e e' l seen (
      Agree-weaken (collect l seen) (collect r (collect l seen))
        (λ x m. mem-collect x r (collect l seen) m) a),
  eval-Agree ft e e' r (collect l seen) a,
)
eval-Agree ft e e' (or_node l r) seen a = cc (
  eval-Agree ft e e' l seen (
      Agree-weaken (collect l seen) (collect r (collect l seen))
        (λ x m. mem-collect x r (collect l seen) m) a),
  eval-Agree ft e e' r (collect l seen) a,
)
eval-Agree ft e e' (not_node m) seen a = cc (eval-Agree ft e e' m seen a)

upper_keys-Agree :
    {e e' : Env} (names : List Text) (g : List (Text × Text))
    → Agree names e e'
    → Agree names (record e { global_vars = g }) (record e' { global_vars = g })
upper_keys-Agree names g a = record {
  same_status = a.same_status;
  same_exitcode = a.same_exitcode;
  same_last_time = a.same_last_time;
  same_globals = refl;
  same_now = a.same_now;
}

evaluate-Agree :
    (ft : FloatText) (e e' : Env) (node : Node)
    → Agree (list_job_dependencies node) e e'
    → evaluate ft e node ≡ evaluate ft e' node
unfolding evaluate list_job_dependencies
evaluate-Agree ft e e' node a =
    rw a.same_globals (eval-Agree ft _ _ node [] (upper_keys-Agree _ _ a))

-- The mask of `date_conditions` leaves every snapshot as it is.
pub mask_statuses_id : (d : List (Text × StatusValue)) → mask_statuses d ≡ d
unfolding mask_statuses
mask_statuses_id [] = refl
mask_statuses_id ((name, status JobStatus.inactive) ∷ rest) = cc (mask_statuses_id rest)
mask_statuses_id ((name, v) ∷ rest) = cc (mask_statuses_id rest)

masked_id :
    (dated : Bool) (e : Env)
    → Path Env
        (record e { job_statuses = if dated then mask_statuses e.job_statuses else e.job_statuses })
        e
masked_id true e = ap (λ d. record e { job_statuses = d }) (mask_statuses_id e.job_statuses)
masked_id false e = refl

evaluate_parsed-Agree :
    (ft : FloatText) (e e' : Env) (p : Parsed Node)
    → Agree (dependencies_of p) e e'
    → evaluate_parsed ft e p ≡ evaluate_parsed ft e' p
unfolding evaluate_parsed dependencies_of
evaluate_parsed-Agree ft e e' (parsed node) a = ap or_false (evaluate-Agree ft e e' node a)
evaluate_parsed-Agree ft e e' syntax_error a = refl
evaluate_parsed-Agree ft e e' exhausted a = refl

-- Two environments that give the same status, exit code and last end for each job that the
-- condition names, and have the same globals and time, decide it alike, parse errors and
-- exceptions included.
pub is_satisfied-Agree :
    (ft : FloatText) (dated : Bool) (e e' : Env) (condition : Option Text)
    → Agree (referenced_job_names condition) e e'
    → is_satisfied ft dated e condition ≡ is_satisfied ft dated e' condition
unfolding is_satisfied referenced_job_names
is_satisfied-Agree ft dated e e' none a = refl
is_satisfied-Agree ft dated e e' (some []) a = refl
is_satisfied-Agree ft dated e e' (some (c ∷ cs)) a =
    rw (masked_id dated e, masked_id dated e')
      (evaluate_parsed-Agree ft e e' (parse_condition (c ∷ cs)) a)
