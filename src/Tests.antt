-- ===== src/Tests.antt =====
-- Concrete runs of the condition language, the time trigger and the transition table, and the
-- theorems about them at concrete inputs. The scheduler's are in
-- Tests/Scheduler.antt and Tests/Boxes.antt.
mod Sample
mod Scheduler
mod Boxes
mod Ha
mod Alarm
mod Jil
mod Substitute
use autosys_clone.Prelude.{
  ℕ, ◌≡◌, ◌↔◌, ◌⊎◌, refl, inl, inr, Bool, true, false, Option, none, some, List, [], ◌∷◌, Text,
  codes, ◌≤◌, arith, mem_text, eq_text, eq_text_iff, rstrip, lstrip, to_upper, lookup, insert,
  length,
}
use autosys_clone.Status.{
  JobStatus, inactive, starting, running, success, terminated, activated, eq_status, mem_status,
  StatusValue, status, value, can_transition,
}
use autosys_clone.Status.Paths.{
  Walk, stay, step, IsLive, has_run, Walk-success, Walk-terminated, Walk-IsLive, Walk-inactive,
}
use autosys_clone.Condition.{Func, Cmp, eq, Node, job_cond, value_cond, and_node}
use autosys_clone.Condition.Parser.{parse, parsed, syntax_error}
use autosys_clone.Condition.Tokenizer.{match_token, is_name_char, parse_condition}
use autosys_clone.Condition.Eval.{FloatText, Env, evaluate, list_job_dependencies}
use autosys_clone.Evaluator.{is_satisfied, referenced_job_names, mask_statuses}
use autosys_clone.Evaluator.Frame.{Agree, is_satisfied-Agree, mask_statuses_id}
use autosys_clone.Tests.Sample.{no_floats}
use autosys_clone.Scheduler.Window.{between}
use autosys_clone.Scheduler.Window.Cycle.{ahead, between-ahead}

abbrev pub both : Text
both = codes "s(a) & value(X) = 1"

both_parses :
    parse_condition both
    ≡ parsed
        (and_node (job_cond Func.s (codes "a") none none) (value_cond (codes "X") eq (codes "1")))
unfolding parse_condition rstrip lstrip match_token is_name_char parse eq_text to_upper
both_parses = refl

unclosed : parse_condition (codes "s(a") ≡ syntax_error
unfolding parse_condition rstrip lstrip match_token is_name_char parse eq_text to_upper
unclosed = refl

-- Two snapshots that differ on a job that the condition does not name.
abbrev one_job : Env
one_job = record {
  job_statuses = (codes "a", status success) ∷ [];
  global_vars = (codes "x", codes "1") ∷ [];
  job_exitcodes = [];
  job_last_times = [];
  now = some 5;
}

abbrev two_jobs : Env
two_jobs = record one_job {
  job_statuses = (codes "a", status success) ∷ (codes "b", status running) ∷ [];
}

names_a : referenced_job_names (some both) ≡ codes "a" ∷ []
unfolding referenced_job_names parse_condition rstrip lstrip match_token is_name_char parse eq_text
    to_upper list_job_dependencies
names_a = refl

both_holds : is_satisfied no_floats false one_job (some both) ≡ true
unfolding is_satisfied parse_condition rstrip lstrip match_token is_name_char parse eq_text to_upper
    evaluate lookup insert
both_holds = refl

Agree-on_a : Agree (codes "a" ∷ []) one_job two_jobs
unfolding lookup
Agree-on_a = record {
  same_status =
      λ name m. ground (arith, eq_text_iff name (codes "a"), eq_text_iff (codes "a") name);
  same_exitcode = λ name m. refl;
  same_last_time = λ name m. refl;
  same_globals = refl;
  same_now = refl;
}

same_on_a : Agree (referenced_job_names (some both)) one_job two_jobs
same_on_a = rw names_a Agree-on_a

is_satisfied-Agree_example :
    is_satisfied no_floats true one_job (some both)
    ≡ is_satisfied no_floats true two_jobs (some both)
is_satisfied-Agree_example =
    is_satisfied-Agree no_floats true one_job two_jobs (some both) same_on_a

mask_statuses_id_example : mask_statuses two_jobs.job_statuses ≡ two_jobs.job_statuses
mask_statuses_id_example = mask_statuses_id two_jobs.job_statuses

-- A window past midnight, from 22:00 to 02:00, at 01:00.
between-ahead_example : (between 1320 120 60 ≡ true) ↔ (ahead 1320 60 ≤ ahead 1320 120)
between-ahead_example = between-ahead 1320 120 60 (omega arith) (omega arith) (omega arith)

-- A command that runs and succeeds.
good_run : Walk inactive (starting ∷ running ∷ success ∷ []) success
unfolding can_transition
good_run = step refl (step refl (step refl stay))

killed_run : Walk inactive (starting ∷ running ∷ terminated ∷ []) terminated
unfolding can_transition
killed_run = step refl (step refl (step refl stay))

not_run : has_run inactive ≡ false
unfolding value
not_run = refl

not_there : eq_status inactive success ≡ false
unfolding value
not_there = refl

not_running : eq_status inactive running ≡ false
unfolding value
not_running = refl

not_ended : eq_status inactive terminated ≡ false
unfolding value
not_ended = refl

IsLive-start : IsLive inactive
unfolding value
IsLive-start = refl

Walk-success_example :
    (mem_status running (starting ∷ running ∷ success ∷ []) ≡ true)
    ⊎ (mem_status JobStatus.on_noexec (starting ∷ running ∷ success ∷ []) ≡ true)
Walk-success_example = Walk-success not_run not_there good_run refl

Walk-terminated_example : mem_status running (starting ∷ running ∷ terminated ∷ []) ≡ true
Walk-terminated_example = Walk-terminated not_running not_ended killed_run refl

Walk-IsLive_example : IsLive terminated
Walk-IsLive_example = Walk-IsLive IsLive-start killed_run

Walk-inactive_example : (path : List JobStatus) × Walk running path inactive × (length path ≤ 2)
Walk-inactive_example = Walk-inactive running
