-- ===== src/Alarm/Checks.antt =====
-- Each check of an evaluation does no more to the board than to raise alarms (`_check_job` and the
-- other checks of autosys/notifications/alarm_manager.py).
use autosys_clone.Prelude.{ℕ, Bool, true, ◌&&◌, Option, none, some, List, [], ◌∷◌, Text}
use autosys_clone.Status.{StatusValue, status, running, terminated, failure, norm_status, eq_value}
use autosys_clone.Condition.Eval.{Time}
use autosys_clone.Alarm.{
  Watched, AlarmType, Board, raise_if, ran_too_long, check_job, may_alarm, find_watched, selected,
  each, recent_runs, check_run, check_min_run, must_start, check_must_start, must_complete,
  check_must_complete, runs_on, unreachable, check_machines, check_jobs, is_given,
}

module _ (P : Board → Type 0) (now : Time)
    (keeps : (due : Bool) (name : Text) (type : AlarmType) (run : Option ℕ)
        (at : Option StatusValue) (b : Board)
      → P b
      → P (raise_if due now name type run at b)) where
  pub each-keeps {ℓ} :
      {A : Type ℓ} (f : A → Board → Board) (xs : List A) (b : Board)
      → ((x : A) (b' : Board) → P b' → P (f x b'))
      → P b
      → P (each f xs b)
  each-keeps f [] b k h = h
  each-keeps f (x ∷ xs) b k h = each-keeps f xs (f x b) k (k x b h)

  pub check_job-keeps : (j : Watched) (b : Board) → P b → P (check_job now j b)
  unfolding check_job
  check_job-keeps j b h =
      let is = eq_value (norm_status j.status) in
      keeps (is running && ran_too_long now j.last_start j.max_run_alarm) j.job_name
        AlarmType.max_run_alarm none (some (status running)) _
        (keeps (is terminated && j.alarm_if_terminated) j.job_name AlarmType.alarm_if_terminated
          none (some (status terminated)) _
          (keeps (is failure && j.alarm_if_fail) j.job_name AlarmType.alarm_if_fail none
            (some (status failure)) b h))

  pub check_jobs-keeps : (b : Board) → P b → P (check_jobs now b)
  unfolding check_jobs
  check_jobs-keeps b h = each-keeps (check_job now) (selected may_alarm b) b check_job-keeps h

  pub check_machines-keeps : (b : Board) → P b → P (check_machines now b)
  unfolding check_machines unreachable
  check_machines-keeps b h =
      each-keeps _ b.down b
        (λ m b' h'.
          each-keeps (unreachable now) (selected (runs_on m) b') b'
            (λ j b'' h''. keeps true j.job_name AlarmType.heartbeat_fail none j.status b'' h'') h')
        h

  pub check_min_run-keeps : (b : Board) → P b → P (check_min_run now b)
  unfolding check_min_run check_run
  check_min_run-keeps b h =
      each-keeps _ (recent_runs now b) b
        (λ r b' h'.
          each-keeps (check_run now r) (find_watched r.job_name b.jobs) b'
            (λ j b'' h''. keeps _ j.job_name AlarmType.min_run_alarm (some r.run_id) _ b'' h'') h')
        h

  pub check_must_start-keeps : (b : Board) → P b → P (check_must_start now b)
  unfolding check_must_start must_start
  check_must_start-keeps b h =
      each-keeps (must_start now) (selected (λ j. is_given j.must_start_times) b) b
        (λ j b' h'. keeps _ j.job_name AlarmType.must_start_alarm none j.status b' h') h

  pub check_must_complete-keeps : (b : Board) → P b → P (check_must_complete now b)
  unfolding check_must_complete must_complete
  check_must_complete-keeps b h =
      each-keeps (must_complete now) (selected (λ j. is_given j.must_complete_times) b) b
        (λ j b' h'. keeps _ j.job_name AlarmType.must_complete_alarm none j.status b' h') h

  -- All checks of an evaluation behind those of the single jobs.
  pub later_checks-keeps :
      (b : Board)
      → P b
      → P (
          check_must_complete now (check_must_start now (check_min_run now (check_machines now b))))
  later_checks-keeps b h =
      let b2 = check_machines now b in
      let b3 = check_min_run now b2 in
      check_must_complete-keeps (check_must_start now b3)
        (check_must_start-keeps b3 (check_min_run-keeps b2 (check_machines-keeps b h)))
